-- ===== src/Tinytown/Search/Images.antt =====
-- tinytown/search.go, tinytown/walk.go: a walk commutes with a map of the callback's state.
use urlhero.Common.{
  ℕ, zero, suc, Bool, true, false, Option, none, some, List, [], ◌∷◌, ◌⊎◌, inl, inr, ◌≡◌, refl, ap,
  ◌∙◌, Bool-cases, Outcome, ok, err, panic, hang, Bytes, base, if◌then◌else◌, length, ℤ,
}
use urlhero.Beacon.{Link, is_eof}
use urlhero.Beacon as Beacon
use urlhero.Beacon.Reader.{Reader, new_urlteam_reader, unread}
use urlhero.Beacon.Links.{read}
use urlhero.Tinytown.{
  WalkError, File, DirEntry, next, or_fail, beacon, after_call, after_read, process_links,
  process_opened, process_link_dump, process_dumps, classify_files, minus, txt_xz,
}
use urlhero.Tinytown.Releases.{process_classified, process_project, read_meta_file}
use urlhero.Tinytown.Search.{is_project, search_files, search_dirs, search_root}

-- A step of one walk on the image of a state is the image of the other walk's step.
module _ {S T : Type 0} (g : S → T) where
  abbrev pub image : {R : Type 0} → R × S → R × T
  image (r, s) = (r, g s)

  module _ {E : Type 0} where
    pub next-image :
        (f : S → Outcome (WalkError E) Unit × S) (h : T → Outcome (WalkError E) Unit × T)
        (m : Outcome (WalkError E) Unit × S)
        → ((s : S) → h (g s) ≡ image (f s))
        → next h (image m) ≡ image (next f m)
    next-image f h (ok _, s) same = same s
    next-image f h (err e, s) same = refl
    next-image f h (panic, s) same = refl
    next-image f h (hang, s) same = refl

    pub or_fail-image :
        {A : Type 0} (s : S) (a : E ⊎ A) (f : A → Outcome (WalkError E) Unit × S)
        (h : A → Outcome (WalkError E) Unit × T)
        → ((a : A) → h a ≡ image (f a))
        → or_fail (g s) a h ≡ image (or_fail s a f)
    or_fail-image s (inl e) f h same = refl
    or_fail-image s (inr a) f h same = same a

  module _ {E Meta : Type 0} (fn : Link → Meta → ℤ → Bytes → Bytes → S → Option E × S)
      (gn : Link → Meta → ℤ → Bytes → Bytes → T → Option E × T)
      (same : (l : Link) (meta : Meta) (len : ℤ) (filename name : Bytes) (s : S)
        → gn l meta len filename name (g s) ≡ image (fn l meta len filename name s)) where
    after_call-image :
        (f : S → Outcome (WalkError E) Unit × S) (h : T → Outcome (WalkError E) Unit × T)
        (m : Option E × S)
        → ((s : S) → h (g s) ≡ image (f s))
        → after_call gn h (image m) ≡ image (after_call fn f m)
    after_call-image f h (none, s) again = again s
    after_call-image f h (some e, s) again = refl

    at_eof-image :
        (b : Bool) (e : Beacon.Error) (s : S)
        → if◌then◌else◌ {A = Outcome (WalkError E) Unit × T} b (ok tt, g s) (err (beacon e), g s)
          ≡ image (if b then (ok tt, s) else (err (beacon e), s))
    at_eof-image true e s = refl
    at_eof-image false e s = refl

    after_read-image :
        (f : Reader → S → Outcome (WalkError E) Unit × S)
        (h : Reader → T → Outcome (WalkError E) Unit × T) (meta : Meta) (len : ℤ)
        (filename name : Bytes) (s : S) (m : Outcome Beacon.Error Link × Reader)
        → ((r : Reader) (s : S) → h r (g s) ≡ image (f r s))
        → after_read gn h meta len filename name (g s) m
          ≡ image (after_read fn f meta len filename name s m)
    after_read-image f h meta len filename name s (ok link, r) again =
        ap (after_call gn (h r)) (same link meta len filename name s)
        ∙ after_call-image (f r) (h r) (fn link meta len filename name s) (again r)
    after_read-image f h meta len filename name s (err e, r) again = at_eof-image (is_eof e) e s
    after_read-image f h meta len filename name s (panic, r) again = refl
    after_read-image f h meta len filename name s (hang, r) again = refl

    process_links-image :
        (fuel : ℕ) (meta : Meta) (len : ℤ) (filename name : Bytes) (r : Reader) (s : S)
        → process_links gn fuel meta len filename name r (g s)
          ≡ image (process_links fn fuel meta len filename name r s)
    unfolding process_links
    process_links-image zero meta len filename name r s = refl
    process_links-image (suc fuel) meta len filename name r s =
        after_read-image (process_links fn fuel meta len filename name)
          (process_links gn fuel meta len filename name) meta len filename name s (read r)
          (process_links-image fuel meta len filename name)

    process_opened-image :
        (name filename : Bytes) (meta : Meta) (s : S) (o : E ⊎ (Bytes × Beacon.Error))
        → process_opened gn name filename meta (g s) o
          ≡ image (process_opened fn name filename meta s o)
    unfolding process_opened
    process_opened-image name filename meta s (inl e) = refl
    process_opened-image name filename meta s (inr (text, final)) =
        let len = minus (length (base name)) (length txt_xz) in
        let br = new_urlteam_reader text final len in
        process_links-image (suc (unread br)) meta len filename name br s

    process_dumps-image :
        (files : List (File E)) (filename : Bytes) (meta : Meta) (s : S)
        → process_dumps gn files filename meta (g s)
          ≡ image (process_dumps fn files filename meta s)
    unfolding process_dumps process_link_dump
    process_dumps-image [] filename meta s = refl
    process_dumps-image (f ∷ files) filename meta s =
        ap (next (process_dumps gn files filename meta))
          (process_opened-image f.name filename meta s f.open_xz)
        ∙ next-image (process_dumps fn files filename meta) (process_dumps gn files filename meta)
            (process_opened fn f.name filename meta s f.open_xz)
            (process_dumps-image files filename meta)

    module _ (open_reader : Bytes → E ⊎ List (File E))
        (decode : Bytes × Beacon.Error → E ⊎ Meta) where
      process_classified-image :
          (filename : Bytes) (s : S) (c : WalkError E ⊎ (File E × List (File E)))
          → process_classified gn open_reader decode filename (g s) c
            ≡ image (process_classified fn open_reader decode filename s c)
      unfolding read_meta_file
      process_classified-image filename s (inl e) = refl
      process_classified-image filename s (inr (meta_file, dumps)) =
          or_fail-image s (read_meta_file fn open_reader decode meta_file)
            (λ meta. process_dumps fn dumps filename meta s)
            (λ meta. process_dumps gn dumps filename meta (g s))
            (λ meta. process_dumps-image dumps filename meta s)

      pub process_project-image :
          (filename : Bytes) (s : S)
          → process_project gn open_reader decode filename (g s)
            ≡ image (process_project fn open_reader decode filename s)
      unfolding process_project
      process_project-image filename s =
          or_fail-image s (open_reader filename)
            (λ files.
              process_classified fn open_reader decode filename s (classify_files files filename))
            (λ files.
              process_classified gn open_reader decode filename (g s)
                (classify_files files filename))
            (λ files. process_classified-image filename s (classify_files files filename))

      module _ (read_dir : Bytes → E ⊎ List DirEntry) (join : Bytes → Bytes → Bytes)
          (shortener : Bytes) where
        search_files-image :
            (dir : Bytes) (files : List DirEntry) (s : S)
            → search_files open_reader decode read_dir join gn shortener dir files (g s)
              ≡ image (search_files open_reader decode read_dir join fn shortener dir files s)
        unfolding search_files
        search_files-image dir [] s = refl
        search_files-image dir (file ∷ files) s =
            let skip = search_files-image dir files s in
            elim (Bool-cases (is_project shortener file.name)) [
              | inl p ↦ rw (p) (
                  ap (next (search_files open_reader decode read_dir join gn shortener dir files))
                    (process_project-image (join dir file.name) s)
                  ∙ next-image
                      (search_files open_reader decode read_dir join fn shortener dir files)
                      (search_files open_reader decode read_dir join gn shortener dir files)
                      (process_project fn open_reader decode (join dir file.name) s)
                      (search_files-image dir files))
              | inr p ↦ rw (p) skip
            ]

        search_dirs-image :
            (root : Bytes) (releases : List DirEntry) (s : S)
            → search_dirs open_reader decode read_dir join gn shortener root releases (g s)
              ≡ image (search_dirs open_reader decode read_dir join fn shortener root releases s)
        unfolding search_dirs
        search_dirs-image root [] s = refl
        search_dirs-image root (release ∷ releases) s =
            let dir = join root release.name in
            let skip = search_dirs-image root releases s in
            elim (Bool-cases release.is_dir) [
              | inl p ↦ rw (p) (
                  ap
                    (next (search_dirs open_reader decode read_dir join gn shortener root releases))
                    (or_fail-image s (read_dir dir)
                      (λ files.
                        search_files open_reader decode read_dir join fn shortener dir files s)
                      (λ files.
                        search_files open_reader decode read_dir join gn shortener dir files (g s))
                      (λ files. search_files-image dir files s))
                  ∙ next-image
                      (search_dirs open_reader decode read_dir join fn shortener root releases)
                      (search_dirs open_reader decode read_dir join gn shortener root releases)
                      (or_fail s (read_dir dir) (λ files.
                        search_files open_reader decode read_dir join fn shortener dir files s))
                      (search_dirs-image root releases))
              | inr p ↦ rw (p) skip
            ]

        pub search_root-image :
            (root : Bytes) (s : S)
            → search_root open_reader decode read_dir join gn shortener root (g s)
              ≡ image (search_root open_reader decode read_dir join fn shortener root s)
        unfolding search_root
        search_root-image root s =
            or_fail-image s (read_dir root)
              (λ releases.
                search_dirs open_reader decode read_dir join fn shortener root releases s)
              (λ releases.
                search_dirs open_reader decode read_dir join gn shortener root releases (g s))
              (λ releases. search_dirs-image root releases s)
