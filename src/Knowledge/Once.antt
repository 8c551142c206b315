-- ===== src/Knowledge/Once.antt =====
-- What the knowledge base of self_update/crawl4ai_pipeline.py takes in, and what it loses.
use secure_orchestration_mes.Prelude.{
  ℕ, String, ◌≡◌, refl, sym, ap, subst, eq_refl, true, none, some, List, [], ◌∷◌, All, contains,
  arith, length,
}
use secure_orchestration_mes.Knowledge.{PaperEntry}
use secure_orchestration_mes.Knowledge.Base.{
  KnowledgeBase, Formats, mark, unknown, insert_after, table_sep, with_papers, with_cves,
  update_content, update_file, update_knowledge_base,
}

contains-mark : (known : List String) (key : String) → contains key (mark known key) ≡ true
unfolding mark
contains-mark known key = ground (arith, eq_refl key)

mark-keeps :
    (known : List String) (key k : String)
    → contains k known ≡ true
    → contains k (mark known key) ≡ true
unfolding mark
mark-keeps known key k h = ground arith

module _ {A : Type 0} (key_of : A → String) where
  unknown-keeps :
      (known : List String) (as' : List A) (k : String)
      → contains k known ≡ true
      → contains k (unknown key_of known as').1 ≡ true
  unfolding unknown
  unknown-keeps known [] k h = h
  unknown-keeps known (a ∷ as') k h =
      unknown-keeps (mark known (key_of a)) as' k (mark-keeps known (key_of a) k h)

  -- Afterwards every key is known.
  unknown-marks :
      (known : List String) (as' : List A)
      → All (λ a. contains (key_of a) (unknown key_of known as').1 ≡ true) as'
  unfolding unknown
  unknown-marks known [] = tt
  unknown-marks known (a ∷ as') = (
    unknown-keeps (mark known (key_of a)) as' (key_of a) (contains-mark known (key_of a)),
    unknown-marks (mark known (key_of a)) as',
  )

module _ (formats : Formats) where
  -- No place in the content takes rows or an entry of the log.
  abbrev pub IsUnmarked : String → Type 0
  IsUnmarked content =
      ((text : String) → insert_after table_sep text content ≡ none)
      × ((text : String) → insert_after "## Knowledge Update Log" text content ≡ none)

  with_papers-unmarked :
      (papers news : List PaperEntry) (alerts : ℕ) (content : String)
      → IsUnmarked content
      → with_papers formats papers alerts news content ≡ content
  unfolding with_papers
  with_papers-unmarked papers [] alerts content h = refl
  with_papers-unmarked papers (new ∷ news) alerts content h = rw (h.0 _, h.1 _) refl

  -- Papers that the file has no table for, and no log, are marked as known and counted, and are not
  -- written.
  pub update_knowledge_base-loses :
      (self : KnowledgeBase) (papers : List PaperEntry) (content : String)
      → self.content ≡ some content
      → IsUnmarked content
      → let (added, after) = update_knowledge_base formats self papers [] in
        (added ≡ length (unknown (λ p. p.doi_or_arxiv) self.known_papers papers).0)
        × All (λ p. contains p.doi_or_arxiv after.known_papers ≡ true) papers
        × (after.content ≡ some content)
  unfolding update_knowledge_base update_content with_cves unknown
  update_knowledge_base-loses self papers content e h =
      let news = (unknown (λ p. p.doi_or_arxiv) self.known_papers papers).0 in
      subst
        (λ o.
          ((update_file formats self papers [] o).0 ≡ length news)
          × All
              (λ p.
                contains p.doi_or_arxiv (update_file formats self papers [] o).1.known_papers
                ≡ true)
              papers
          × ((update_file formats self papers [] o).1.content ≡ some content))
        (sym e)
        (
          refl,
          unknown-marks (λ p. p.doi_or_arxiv) self.known_papers papers,
          ap some (with_papers-unmarked papers news 0 content h),
        )
