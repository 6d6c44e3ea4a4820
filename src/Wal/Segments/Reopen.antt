-- ===== src/Wal/Segments/Reopen.antt =====
-- Open after a crash: the log stands for the entries whose Append had come to its end.
use vault_fs.Base.{
  ℕ, ◌<◌, ◌≡◌, refl, ◌∙◌, ap, sym, subst, false, none, List, [], ◌∷◌, ◌++◌, map, arith, ok, ltb,
  ne→==, if◌then◌else◌, length, take,
}
use mathlib.Core.List.{append_assoc}
use vault_fs.Wal.Entry.{Entry, encode}
use vault_fs.Wal.Entry.Format.{IsStorable, take-at}
use vault_fs.Wal.Recovery.{replay_file}
use vault_fs.Wal.Recovery.Replay.{encode_all, replay_file_lem}
use vault_fs.Wal.Segments.{
  Segment, Wal, last_after, recover_files, open_dir, open_segment_for_write,
}
use vault_fs.Wal.Segments.Contents.{
  Stores, Holds, Represents, Holds-Parts, Holds-snoc, replay-Stores,
}

-- The directory that a crash leaves in which the active file has some more bytes.
abbrev pub files_of : List Segment → List (ℕ × List ℕ)
files_of ss = map (λ s. (s.id, s.file)) ss

abbrev pub crashed : Wal → List ℕ → List (ℕ × List ℕ)
crashed w torn = files_of w.older ++ (w.active.id, w.active.file ++ torn) ∷ []

last_after-append :
    (last : ℕ) (xs ys : List Entry)
    → last_after last (xs ++ ys) ≡ last_after (last_after last xs) ys
unfolding last_after
last_after-append last [] ys = refl
last_after-append last (x ∷ xs) ys =
    last_after-append (if ltb last x.index then x.index else last) xs ys

-- The log that recover makes of the last file.
abbrev recovered : ℕ → List Segment → ℕ → ℕ → List ℕ → List Entry → Wal
recovered max older last id file es = record {
  older = older;
  active = open_segment_for_write id (file) (length (encode_all es));
  last_idx = last_after last es;
  max_seg_sz = max;
}

torn_replay :
    (s : Segment) (es : List Entry) (e : Entry) (n : ℕ)
    → Stores s es
    → IsStorable e
    → n < length (encode e)
    → replay_file (s.file ++ take n (encode e)) ≡ (es, length (encode_all es), none)
torn_replay s es e n st fits h =
    ap (λ f. replay_file (f ++ take n (encode e))) st.records
    ∙ replay_file_lem es e n st.storable fits h

active-Stores :
    (s : Segment) (es : List Entry) (torn : List ℕ)
    → Stores s es
    → Stores (open_segment_for_write s.id (s.file ++ torn) (length (encode_all es))) es
active-Stores s es torn st =
    let cut : take (length (encode_all es)) (s.file ++ torn) ≡ encode_all es =
      take-at s.file torn (length (encode_all es)) (ap length st.records) ∙ st.records in
    record { storable = st.storable; records = cut; sized = sym (ap length cut) }

recover_last :
    (max : ℕ) (older : List Segment) (last : ℕ) (s : Segment) (es : List Entry) (e : Entry) (n : ℕ)
    → Stores s es
    → IsStorable e
    → n < length (encode e)
    → recover_files max older last ((s.id, s.file ++ take n (encode e)) ∷ [])
      ≡ ok (recovered max older last s.id (s.file ++ take n (encode e)) es)
unfolding recover_files
recover_last max older last s es e n st fits h =
    let file = s.file ++ take n (encode e) in
    let read = torn_replay s es e n st fits h in
    rw (recover_files, read)
      (ap
        (λ r. ok (record {
          older = older;
          active = open_segment_for_write s.id file r.1;
          last_idx = last_after last r.0;
          max_seg_sz = max;
        }))
        read)

-- The segment that recover makes of an older file.
abbrev reread : Segment → Segment
reread s = record { id = s.id; file = s.file; is_open = false; size = length s.file }

recover_older :
    (max : ℕ) (older : List Segment) (last : ℕ) (s : Segment) (es : List Entry)
    (files : List (ℕ × List ℕ))
    → Stores s es
    → 0 < length files
    → recover_files max older last ((s.id, s.file) ∷ files)
      ≡ recover_files max (older ++ reread s ∷ []) (last_after last es) files
unfolding recover_files
recover_older max older last s es files st more =
    let read = replay-Stores s es st in
    rw (recover_files, read, ne→== (length files) 0 (λ z. omega (arith, z, more)))
      (ap (λ r. recover_files max (older ++ reread s ∷ []) (last_after last r.0) files) read)

reread-Stores : (s : Segment) (es : List Entry) → Stores s es → Stores (reread s) es
reread-Stores s es st = record { storable = st.storable; records = st.records; sized = refl }

-- The recovery of these files, on top of these segments, ends in a log that stands for the entries.
unfoldable Reopens : ℕ → List Segment → ℕ → List (ℕ × List ℕ) → List Entry → Type 0
Reopens max older last files es =
    (w : Wal) × (recover_files max older last files ≡ ok w) × Represents w es

some_left : (fs : List (ℕ × List ℕ)) (f : ℕ × List ℕ) → 0 < length (fs ++ f ∷ [])
some_left [] f = omega arith
some_left (g ∷ fs) f = omega arith

recover_all :
    (max : ℕ) (ss : List Segment) (s : Segment) (own : List Entry) (e : Entry) (n : ℕ)
    (older : List Segment) (before later : List Entry)
    → Stores s own
    → IsStorable e
    → n < length (encode e)
    → Holds older before
    → Holds ss later
    → Reopens max older
        (last_after 0 before)
        (files_of ss ++ (s.id, s.file ++ take n (encode e)) ∷ [])
        (before ++ (later ++ own))
unfolding Reopens Holds
recover_all max [] s own e n older before later st fits h done none_left = (
  recovered max older (last_after 0 before) s.id (s.file ++ take n (encode e)) own,
  recover_last max older (last_after 0 before) s own e n st fits h,
  record {
    holds =
        subst
          (Holds (
            older
            ++ (open_segment_for_write s.id (s.file ++ take n (encode e)) (length (encode_all own)))
              ∷ []))
          (ap (λ zs. before ++ (zs ++ own)) (sym none_left))
          (Holds-snoc older _ before own done (active-Stores s own (take n (encode e)) st));
    last =
        sym (last_after-append 0 before own)
        ∙ ap (λ zs. last_after 0 (before ++ (zs ++ own))) (sym none_left);
  },
)
recover_all max (t ∷ ss) s own e n older before later st fits h done (xs, ys, whole, stores, rest) =
    let torn : ℕ × List ℕ = (s.id, s.file ++ take n (encode e)) in
    let (w, opened, rep) =
      recover_all max ss s own e n (older ++ reread t ∷ []) (before ++ xs) ys st fits h
        (Holds-snoc older (reread t) before xs done (reread-Stores t xs stores)) rest in
    (
      w,
      recover_older max older (last_after 0 before) t xs (files_of ss ++ torn ∷ []) stores
            (some_left (files_of ss) torn)
          ∙ ap (λ l. recover_files max (older ++ reread t ∷ []) l (files_of ss ++ torn ∷ []))
              (sym (last_after-append 0 before xs))
          ∙ opened,
      subst (Represents w)
          (append_assoc before xs (ys ++ own)
            ∙ ap (λ zs. before ++ zs) (sym (append_assoc xs ys own))
            ∙ ap (λ zs. before ++ (zs ++ own)) (sym whole))
          rep,
    )

-- If a crash cuts the write of an entry that is not too large short, then Open succeeds on what is
-- in the directory, and the log stands for the entries that it stood for before the write.
pub open_dir_lem :
    (w : Wal) (es : List Entry) (e : Entry) (n max : ℕ)
    → Represents w es
    → IsStorable e
    → n < length (encode e)
    → (w' : Wal) × (open_dir max (crashed w (take n (encode e))) ≡ ok w') × Represents w' es
unfolding open_dir Reopens Holds
open_dir_lem w es e n max r fits h =
    let p = Holds-Parts w.older w.active es r.holds in
    let (w', opened, rep) =
      recover_all max w.older w.active p.own e n [] [] p.before p.stored fits h refl p.earlier in
    (w', opened, subst (Represents w') (sym p.whole) rep)
