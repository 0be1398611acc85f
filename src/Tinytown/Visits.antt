-- ===== src/Tinytown/Visits.antt =====
-- tinytown/walk.go: the loop over the links of a dump ends, and calls `fn` on the links in order.
use urlhero.Common.{
  ℕ, zero, suc, ◌<◌, Bool, true, false, Option, none, some, List, [], ◌∷◌, ◌⊎◌, inl, inr, ◌≡◌, refl,
  sym, ap, subst, arith, Outcome, ok, err, panic, hang, Bytes, length, map, if◌then◌else◌, base, ℤ,
  pos, All,
}
use urlhero.Beacon.{Link, eof, is_eof}
use urlhero.Beacon as Beacon
use urlhero.Beacon.Reader.{Reader, new_urlteam_reader, unread}
use urlhero.Beacon.Links.{read}
use urlhero.Beacon.Dump.{Entry, dump_text, entry_link, IsEntry}
use urlhero.Beacon.RoundTrip.{Reads, done, more, NoHeader, reads_dump}
use urlhero.Beacon.Progress.Links.{Spent, read-Spent}
use urlhero.Tinytown.{
  WalkError, external, after_call, after_read, beacon, File, minus, txt_xz, process_links,
  process_opened, process_link_dump,
}

-- The call came to an end: it returned or panicked.
abbrev pub Ends : {A B : Type 0} → Outcome A B → Type 0
Ends (ok _) = Unit
Ends (err _) = Unit
Ends panic = Unit
Ends hang = ⊥

spent : (r : Reader) {r' : Reader} {l : Link} → read r ≡ (ok l, r') → unread r' < unread r
spent r e = subst (Spent (unread r)) e (read-Spent r)

module _ {E Meta S : Type 0} (fn : Link → Meta → ℤ → Bytes → Bytes → S → Option E × S) where
  -- `fn` is called on the links in order, each time on the state that the call before it left. A
  -- call that fails is the last one, and its error is what the visit comes to.
  pub data Visits (meta : Meta) (len : ℤ) (filename name : Bytes)
      : List Link → S → Outcome (WalkError E) Unit × S → Type 0 where
    end : {s : S} → Visits meta len filename name [] s (ok tt, s)
    called :
        {l : Link} {ls : List Link} {s s' : S} {result : Outcome (WalkError E) Unit × S}
        → fn l meta len filename name s ≡ (none, s')
        → Visits meta len filename name ls s' result
        → Visits meta len filename name (l ∷ ls) s result
    failed :
        {l : Link} {ls : List Link} {s s' : S} {e : E}
        → fn l meta len filename name s ≡ (some e, s')
        → Visits meta len filename name (l ∷ ls) s (err (external e), s')

  after_call-Visits :
      (again : S → Outcome (WalkError E) Unit × S) (meta : Meta) (len : ℤ) (filename name : Bytes)
      (l : Link) (ls : List Link) (s : S) (m : Option E × S)
      → fn l meta len filename name s ≡ m
      → ((s : S) → Visits meta len filename name ls s (again s))
      → Visits meta len filename name (l ∷ ls) s (after_call fn again m)
  after_call-Visits again meta len filename name l ls s (none, s') e h = called e (h s')
  after_call-Visits again meta len filename name l ls s (some x, s') e h = failed e

  after_read-eof :
      (again : Reader → S → Outcome (WalkError E) Unit × S) (meta : Meta) (len : ℤ)
      (filename name : Bytes) (s : S) (m : Outcome Beacon.Error Link × Reader)
      → m.0 ≡ err eof
      → after_read fn again meta len filename name s m ≡ (ok tt, s)
  after_read-eof again meta len filename name s m e =
      ap (λ o. after_read fn again meta len filename name s (o, m.1)) e

  process_links-Visits :
      (fuel : ℕ) (meta : Meta) (len : ℤ) (filename name : Bytes) {r last : Reader} {ls : List Link}
      (s : S)
      → Reads r ls last
      → (read last).0 ≡ err eof
      → unread r < fuel
      → Visits meta len filename name ls s (process_links fn fuel meta len filename name r s)
  unfolding process_links
  process_links-Visits zero meta len filename name s reads ends k = absurd (omega arith)
  process_links-Visits (suc fuel) meta len filename name {r} s done ends k =
      subst (Visits meta len filename name [] s)
        (sym (
          after_read-eof (process_links fn fuel meta len filename name) meta len filename name s
            (read r) ends))
        end
  process_links-Visits (suc fuel) meta len filename name {r} {ls = l ∷ ls} s
        (more {r' = r'} e reads) ends k =
      let h = spent r e in
      let again = process_links fn fuel meta len filename name in
      subst (Visits meta len filename name (l ∷ ls) s)
        (ap (after_read fn again meta len filename name s) (sym e))
        (after_call-Visits (again r') meta len filename name l ls s (fn l meta len filename name s)
          refl (λ s'. process_links-Visits fuel meta len filename name s' reads ends (omega arith)))

  -- For a dump with no header whose entries are well formed, in a file named by a shortcode length
  -- of one at least, `processLinkDump` calls `fn` on the links of the entries in order, each time on
  -- the state that the call before it left, and returns nil at their end; a call that fails is the
  -- last one, and `processLinkDump` returns its error.
  pub process_link_dump-Visits :
      {n : ℕ} (f : File E) (filename : Bytes) (meta : Meta) (s : S) (es : List Entry)
      → f.open_xz ≡ inr (dump_text es, eof)
      → minus (length (base f.name)) (length txt_xz) ≡ pos (suc n)
      → All (IsEntry (suc n)) es
      → NoHeader (dump_text es)
      → Visits meta
          (pos (suc n))
          filename
          f.name
          (map entry_link es)
          s
          (process_link_dump fn f filename meta s)
  unfolding process_link_dump process_opened
  process_link_dump-Visits {n} f filename meta s es o len hs h =
      let all = reads_dump es hs h in
      rw (o, len)
        (process_links-Visits (suc (unread (new_urlteam_reader (dump_text es) eof (pos (suc n)))))
          meta (pos (suc n)) filename f.name s all.reads all.ends (omega arith))

  after_call-Ends :
      (again : S → Outcome (WalkError E) Unit × S) (m : Option E × S)
      → ((s : S) → Ends (again s).0)
      → Ends (after_call fn again m).0
  after_call-Ends again (none, s) h = h s
  after_call-Ends again (some e, s) h = tt

  at_eof-Ends :
      (b : Bool) (e : Beacon.Error) (s : S)
      → Ends (if◌then◌else◌ {A = Outcome (WalkError E) Unit × S} b (ok tt, s) (err (beacon e), s)).0
  at_eof-Ends true e s = tt
  at_eof-Ends false e s = tt

  after_read-Ends :
      (again : Reader → S → Outcome (WalkError E) Unit × S) (meta : Meta) (len : ℤ)
      (filename name : Bytes) (s : S) (k : ℕ) (m : Outcome Beacon.Error Link × Reader)
      → Spent k m
      → ((r : Reader) (s : S) → unread r < k → Ends (again r s).0)
      → Ends (after_read fn again meta len filename name s m).0
  after_read-Ends again meta len filename name s k (ok link, r) h next =
      after_call-Ends (again r) (fn link meta len filename name s) (λ s'. next r s' h)
  after_read-Ends again meta len filename name s k (err e, r) h next = at_eof-Ends (is_eof e) e s
  after_read-Ends again meta len filename name s k (panic, r) h next = tt
  after_read-Ends again meta len filename name s k (hang, r) h next = h

  process_links-Ends :
      (fuel : ℕ) (meta : Meta) (len : ℤ) (filename name : Bytes) (r : Reader) (s : S)
      → unread r < fuel
      → Ends (process_links fn fuel meta len filename name r s).0
  unfolding process_links
  process_links-Ends zero meta len filename name r s k = absurd (omega arith)
  process_links-Ends (suc fuel) meta len filename name r s k =
      after_read-Ends (process_links fn fuel meta len filename name) meta len filename name s
        (unread r) (read r) (read-Spent r)
        (λ r' s' h. process_links-Ends fuel meta len filename name r' s' (omega arith))

  process_opened-Ends :
      (name filename : Bytes) (meta : Meta) (s : S) (o : E ⊎ (Bytes × Beacon.Error))
      → Ends (process_opened fn name filename meta s o).0
  unfolding process_opened
  process_opened-Ends name filename meta s (inl e) = tt
  process_opened-Ends name filename meta s (inr (text, final)) =
      let len = minus (length (base name)) (length txt_xz) in
      let br = new_urlteam_reader text final len in
      process_links-Ends (suc (unread br)) meta len filename name br s (omega arith)

  -- On any file `processLinkDump` comes to an end: its loop over the links stops.
  pub process_link_dump-Ends :
      (f : File E) (filename : Bytes) (meta : Meta) (s : S)
      → Ends (process_link_dump fn f filename meta s).0
  unfolding process_link_dump
  process_link_dump-Ends f filename meta s = process_opened-Ends f.name filename meta s f.open_xz
