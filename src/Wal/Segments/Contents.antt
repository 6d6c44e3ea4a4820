-- ===== src/Wal/Segments/Contents.antt =====
-- The log stands for a list of entries, which Append extends and ReadAll returns.
use vault_fs.Base.{
  ℕ, ◌+◌, ◌≡◌, refl, ◌∙◌, ap, sym, subst, none, List, [], ◌∷◌, ◌++◌, arith, ok, ltb, if◌then◌else◌,
  Bool-cases, length, All, length-append, u64, inl, inr,
}
use mathlib.Core.List.{append_assoc, append-nil}
use vault_fs.Wal.Entry.{Entry, encode}
use vault_fs.Wal.Entry.Format.{IsStorable}
use vault_fs.Wal.Recovery.{replay_file}
use vault_fs.Wal.Recovery.Replay.{encode_all, encode_all-append, replay_file_whole}
use vault_fs.Wal.Segments.{
  Segment, Wal, append_entry, write_entry, rotate, read_segments, read_all, last_after,
  write_segment, create_segment, close_segment,
}

-- The file of the segment is the records of these entries and nothing else.
pub record Stores (s : Segment) (es : List Entry) : Type 0 where
  pub storable : All IsStorable es
  pub records : s.file ≡ encode_all es
  pub sized : s.size ≡ length s.file

-- The files of the segments, one after the other, are the records of these entries.
unfoldable pub Holds : List Segment → List Entry → Type 0
Holds [] es = es ≡ []
Holds (s ∷ ss) es = (xs ys : List Entry) × (es ≡ xs ++ ys) × Stores s xs × Holds ss ys

-- The log stands for these entries, and knows their greatest index.
pub record Represents (w : Wal) (es : List Entry) : Type 0 where
  pub holds : Holds (w.older ++ w.active ∷ []) es
  pub last : w.last_idx ≡ last_after 0 es

pub replay-Stores :
    (s : Segment) (es : List Entry)
    → Stores s es
    → replay_file s.file ≡ (es, length (encode_all es), none)
replay-Stores s es h = ap replay_file h.records ∙ replay_file_whole es h.storable

read_segments-Holds : (ss : List Segment) (es : List Entry) → Holds ss es → read_segments ss ≡ ok es
unfolding read_segments Holds
read_segments-Holds [] es h = ap ok (sym h)
read_segments-Holds (s ∷ ss) es (xs, ys, e, stores, h) =
    rw (read_segments, replay-Stores s xs stores, read_segments-Holds ss ys h)
      (ap (λ r. ok (r.0 ++ ys)) (replay-Stores s xs stores) ∙ ap ok (sym e))

-- ReadAll returns the entries that the log stands for.
pub read_all_lem : (w : Wal) (es : List Entry) → Represents w es → read_all w ≡ ok es
unfolding read_all
read_all_lem w es r = read_segments-Holds (w.older ++ w.active ∷ []) es r.holds

pub Holds-snoc :
    (ss : List Segment) (s : Segment) (xs ys : List Entry)
    → Holds ss xs
    → Stores s ys
    → Holds (ss ++ s ∷ []) (xs ++ ys)
unfolding Holds
Holds-snoc [] s xs ys h st = (ys, [], ap (λ zs. zs ++ ys) h ∙ sym (append-nil ys), st, refl)
Holds-snoc (t ∷ ss) s xs ys (as', bs, e, stores, h) st = (
  as',
  bs ++ ys,
  ap (λ zs. zs ++ ys) e ∙ append_assoc as' bs ys,
  stores,
  Holds-snoc ss s bs ys h st,
)

-- The entries of the last segment apart.
pub record Parts (ss : List Segment) (s : Segment) (es : List Entry) : Type 0 where
  pub before : List Entry
  pub own : List Entry
  pub whole : es ≡ before ++ own
  pub earlier : Holds ss before
  pub stored : Stores s own

pub Holds-Parts :
    (ss : List Segment) (s : Segment) (es : List Entry) → Holds (ss ++ s ∷ []) es → Parts ss s es
unfolding Holds
Holds-Parts [] s es (xs, ys, e, stores, h) = record {
  before = [];
  own = xs;
  whole = e ∙ ap (λ zs. xs ++ zs) h ∙ append-nil xs;
  earlier = refl;
  stored = stores;
}
Holds-Parts (t ∷ ss) s es (xs, ys, e, stores, h) =
    let p = Holds-Parts ss s ys h in
    record {
      before = xs ++ p.before;
      own = p.own;
      whole = e ∙ ap (λ zs. xs ++ zs) p.whole ∙ sym (append_assoc xs p.before p.own);
      earlier = (xs, p.before, refl, stores, p.earlier);
      stored = p.stored;
    }

All-append :
    (xs ys : List Entry) → All IsStorable xs → All IsStorable ys → All IsStorable (xs ++ ys)
All-append [] ys hx hy = hy
All-append (x ∷ xs) ys hx hy = (hx.0, All-append xs ys hx.1 hy)

write-Stores :
    (s : Segment) (es : List Entry) (e : Entry)
    → Stores s es
    → IsStorable e
    → Stores (write_segment s (encode e)) (es ++ e ∷ [])
unfolding encode_all
write-Stores s es e h fits = record {
  storable = All-append es (e ∷ []) h.storable (fits, tt);
  records =
      ap (λ bs. bs ++ encode e) h.records
      ∙ ap (λ bs. encode_all es ++ bs) (sym (append-nil (encode e)))
      ∙ sym (encode_all-append es (e ∷ []));
  sized = omega (arith, h.sized, length-append s.file (encode e));
}

last_after-snoc :
    (last : ℕ) (es : List Entry) (e : Entry)
    → last_after last (es ++ e ∷ [])
      ≡ (if ltb (last_after last es) e.index then e.index else last_after last es)
unfolding last_after
last_after-snoc last [] e = refl
last_after-snoc last (x ∷ es) e = last_after-snoc (if ltb last x.index then x.index else last) es e

write_entry-Represents :
    (w : Wal) (es : List Entry) (e : Entry)
    → Represents w es
    → IsStorable e
    → Represents (write_entry w e) (es ++ e ∷ [])
write_entry-Represents w es e r fits =
    let p = Holds-Parts w.older w.active es r.holds in
    record {
      holds =
          subst (Holds (w.older ++ write_segment w.active (encode e) ∷ []))
            (sym (append_assoc p.before p.own (e ∷ [])) ∙ ap (λ zs. zs ++ e ∷ []) (sym p.whole))
            (Holds-snoc w.older (write_segment w.active (encode e)) p.before (p.own ++ e ∷ [])
              p.earlier (write-Stores w.active p.own e p.stored fits));
      last = ap (λ l. if ltb l e.index then e.index else l) r.last ∙ sym (last_after-snoc 0 es e);
    }

rotate-Represents : (w : Wal) (es : List Entry) → Represents w es → Represents (rotate w) es
unfolding rotate encode_all
rotate-Represents w es r =
    let p = Holds-Parts w.older w.active es r.holds in
    let closed : Stores (close_segment w.active) p.own = record {
      storable = p.stored.storable;
      records = p.stored.records;
      sized = p.stored.sized;
    } in
    let fresh : Stores (create_segment (u64 (w.active.id + 1))) [] = record {
      storable = tt;
      records = refl;
      sized = refl;
    } in
    record {
      holds =
          subst
            (Holds (
              (w.older ++ close_segment w.active ∷ [])
              ++ create_segment (u64 (w.active.id + 1)) ∷ []))
            (append-nil (p.before ++ p.own) ∙ sym p.whole)
            (Holds-snoc (w.older ++ close_segment w.active ∷ [])
              (create_segment (u64 (w.active.id + 1))) (p.before ++ p.own) []
              (Holds-snoc w.older (close_segment w.active) p.before p.own p.earlier closed) fresh);
      last = r.last;
    }

-- Append puts an entry that is not too large behind the ones that the log stands for, whether or not
-- it goes into a new segment.
pub append_entry_lem :
    (w : Wal) (es : List Entry) (e : Entry)
    → Represents w es
    → IsStorable e
    → Represents (append_entry w e) (es ++ e ∷ [])
unfolding append_entry
append_entry_lem w es e r fits =
    elim (Bool-cases (ltb w.max_seg_sz (w.active.size + length (encode e)))) [
      | inl full ↦ rw full (write_entry-Represents (rotate w) es e (rotate-Represents w es r) fits)
      | inr room ↦ rw room (write_entry-Represents w es e r fits)
    ]
