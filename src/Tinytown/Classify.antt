-- ===== src/Tinytown/Classify.antt =====
-- tinytown/walk.go: `classifyFiles` picks the meta file and keeps the others in their order.
use urlhero.Common.{
  true, Option, some, List, [], ◌∷◌, ◌++◌, append_assoc, append-nil, ◌≡◌, ◌⊎◌, inl, inr, refl, sym,
  ap, ◌∙◌, subst, arith, Bytes, All, Bool-cases, Option-cases,
}
use mathlib.Core.Option.{some-injective}
use urlhero.Tinytown.{
  WalkError, File, is_meta, is_dump, find_meta, split_last, all_dumps, check_dumps, pick_meta,
  classify_files,
}

module _ {E : Type 0} where
  -- The files are `meta` between two lists, which make up `rest`.
  pub record Split (files : List (File E)) (meta : File E) (rest : List (File E)) : Type 0 where
    pub before : List (File E)
    pub after : List (File E)
    pub files_are : files ≡ before ++ meta ∷ after
    pub rest_is : rest ≡ before ++ after
    pub has_meta : is_meta meta ≡ true

  picked :
      {f meta : File E} {files rest : List (File E)}
      → ◌≡◌ {A = Option (File E × List (File E))} (some (f, files)) (some (meta, rest))
      → (f ≡ meta) × (files ≡ rest)
  picked {f} {meta} {files} {rest} h =
      let p = some-injective (f, files) (meta, rest) h in (ap (λ x. x.0) p, ap (λ x. x.1) p)

  find_meta-Split :
      (before files : List (File E)) {meta : File E} {rest : List (File E)}
      → find_meta before files ≡ some (meta, rest)
      → Split (before ++ files) meta rest
  unfolding find_meta
  find_meta-Split before [] e = absurd (ground arith)
  find_meta-Split before (f ∷ files) {meta} {rest} e = elim (Bool-cases (is_meta f)) [
    | inl m ↦
        let (em, er) = picked (rw (find_meta, m) at e) in
        record {
          before = before;
          after = files;
          files_are = ap (λ x. before ++ x ∷ files) em;
          rest_is = sym er;
          has_meta = subst (λ x. is_meta x ≡ true) em m;
        }
    | inr m ↦
        let s = find_meta-Split (before ++ f ∷ []) files (rw (find_meta, m) at e) in
        subst (λ l. Split l meta rest) (append_assoc before (f ∷ []) files) s
  ]

  split_last_lem :
      (f : File E) (files : List (File E))
      → f ∷ files ≡ (split_last f files).0 ++ (split_last f files).1 ∷ []
  unfolding split_last
  split_last_lem f [] = refl
  split_last_lem f (g ∷ files) = ap (◌∷◌ f) (split_last_lem g files)

  all_dumps-All :
      (files : List (File E)) → all_dumps files ≡ true → All (λ f. is_dump f ≡ true) files
  unfolding all_dumps
  all_dumps-All [] h = tt
  all_dumps-All (f ∷ files) h = (ground arith, all_dumps-All files (ground arith))

  pick_meta-Split :
      (f : File E) (files : List (File E)) {meta : File E} {rest : List (File E)}
      → pick_meta f files ≡ some (meta, rest)
      → Split (f ∷ files) meta rest
  unfolding pick_meta
  pick_meta-Split f files {meta} {rest} e = elim (Bool-cases (is_meta f)) [
    | inl m ↦
        let (em, er) = picked (rw (pick_meta, m) at e) in
        record {
          before = [];
          after = files;
          files_are = ap (λ x. x ∷ files) em;
          rest_is = sym er;
          has_meta = subst (λ x. is_meta x ≡ true) em m;
        }
    | inr m ↦ elim (Bool-cases (is_meta (split_last f files).1)) [
      | inl l ↦
          let (em, er) = picked (rw (pick_meta, m, l) at e) in
          record {
            before = (split_last f files).0;
            after = [];
            files_are = split_last_lem f files ∙ ap (λ x. (split_last f files).0 ++ x ∷ []) em;
            rest_is = sym er ∙ sym (append-nil _);
            has_meta = subst (λ x. is_meta x ≡ true) em l;
          }
      | inr l ↦ find_meta-Split (f ∷ []) files (rw (pick_meta, m, l) at e)
    ]
  ]

  right_same :
      {x y : File E × List (File E)}
      → ◌≡◌ {A = WalkError E ⊎ (File E × List (File E))} (inr x) (inr y)
      → x ≡ y
  right_same e = ground arith

  left_right :
      {x : WalkError E} {y : File E × List (File E)}
      → ¬ (◌≡◌ {A = WalkError E ⊎ (File E × List (File E))} (inl x) (inr y))
  left_right e = ground arith

  checked :
      (filename : Bytes) (picked : File E × List (File E)) {meta : File E} {dumps : List (File E)}
      → check_dumps filename picked ≡ inr (meta, dumps)
      → (picked ≡ (meta, dumps)) × (all_dumps dumps ≡ true)
  checked filename (m, ds) {meta} {dumps} e = elim (Bool-cases (all_dumps ds)) [
    | inl a ↦
        let p : ◌≡◌ {A = File E × List (File E)} (m, ds) (meta, dumps) = right_same (rw a at e) in
        (p, subst (λ x. all_dumps x.1 ≡ true) p a)
    | inr a ↦ absurd (left_right (rw a at e))
  ]

  -- What `classifyFiles` returns is a file of the archive that is named like a meta file, and all
  -- the others in their order, each named like a link dump.
  pub classify_files-Split :
      (files : List (File E)) (filename : Bytes) {meta : File E} {dumps : List (File E)}
      → classify_files files filename ≡ inr (meta, dumps)
      → Split files meta dumps × All (λ f. is_dump f ≡ true) dumps
  unfolding classify_files
  classify_files-Split [] filename e = absurd (left_right e)
  classify_files-Split (f ∷ files) filename {meta} {dumps} e =
      elim (Option-cases (pick_meta f files)) [
        | inl n ↦ absurd (left_right (rw (classify_files, n) at e))
        | inr (p, h) ↦
            let (same, all) = checked filename p (rw (classify_files, h) at e) in
            (pick_meta-Split f files (h ∙ ap some same), all_dumps-All dumps all)
      ]
