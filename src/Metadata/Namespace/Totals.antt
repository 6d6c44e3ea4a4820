-- ===== src/Metadata/Namespace/Totals.antt =====
-- What Stats counts.
use vault_fs.Base.{
  suc, ◌+◌, String, Bool, true, false, List, [], ◌∷◌, Option, none, some, Bool-cases, Result, ok,
  err, inl, inr, ◌≡◌, ◌⊎◌, ◌↔◌, refl, Text, eq_iff, if◌then◌else◌, arith, length, drop, ◌++◌, In,
  Distinct, ap, ap₂, ◌∙◌, sym, subst,
}
use vault_fs.GoMap.{Map, IsMap, insert, contains, lookup}
use vault_fs.GoMap.Laws.{lookup-insert, insert-IsMap}
use vault_fs.Metadata.Store.{Badger, BadgerError, Item, IsListing, walk, scan, get_key}
use vault_fs.Metadata.Namespace.{
  FileInfo, Codec, Tally, broken_store, ns_prefix, stat, note_chunks, stats_step, stats,
}
use vault_fs.Metadata.Namespace.Items.{
  has_prefix-split, has_prefix-append, item_at-key, IsReadable, item-read, item-get_key, stat_iff,
}

note_chunks-contains :
    (ids : List String) (seen : Map (Unit {0})) (id : String)
    → (contains id (note_chunks ids seen) ≡ true) ↔ ((contains id seen ≡ true) ⊎ In id ids)
unfolding note_chunks contains
note_chunks-contains [] seen id = (inl, λ h. elim h [ inl e ↦ e | inr i ↦ absurd i ])
note_chunks-contains (j ∷ ids) seen id =
    ground (
      arith,
      note_chunks-contains ids (insert j tt seen) id,
      lookup-insert j id tt seen,
      eq_iff j id,
    )

note_chunks-IsMap :
    (ids : List String) (seen : Map (Unit {0})) → IsMap seen → IsMap (note_chunks ids seen)
unfolding note_chunks
note_chunks-IsMap [] seen h = h
note_chunks-IsMap (j ∷ ids) seen h =
    note_chunks-IsMap ids (insert j tt seen) (insert-IsMap j tt seen h)

note_all : List (Text × FileInfo) → Map (Unit {0}) → Map (Unit {0})
note_all [] seen = seen
note_all ((k, fi) ∷ entries) seen = note_all entries (note_chunks fi.chunk_ids seen)

note_all-contains :
    (entries : List (Text × FileInfo)) (seen : Map (Unit {0})) (id : String)
    → (contains id (note_all entries seen) ≡ true) ↔ (
        (contains id seen ≡ true)
        ⊎ ((k : Text) × (fi : FileInfo) × In (k, fi) entries × In id fi.chunk_ids))
unfolding note_all
note_all-contains [] seen id = (inl, λ h. elim h [ inl e ↦ e | inr w ↦ absurd w.2 ])
note_all-contains ((j, f) ∷ entries) seen id =
    let (to, fro) = note_all-contains entries (note_chunks f.chunk_ids seen) id in
    let (note, noted) = note_chunks-contains f.chunk_ids seen id in
    (
      λ h. elim (to h) [
        | inl e ↦ elim (note e) [ inl old ↦ inl old | inr i ↦ inr (j, f, inl refl, i) ]
        | inr (k, fi, e, i) ↦ inr (k, fi, inr e, i)
      ],
      λ h. elim h [
        | inl old ↦ fro (inl (noted (inl old)))
        | inr (k, fi, inl e, i) ↦
            fro (inl (noted (inr (subst (λ r. In id r.1.chunk_ids) (sym e) i))))
        | inr (k, fi, inr e, i) ↦ fro (inr (k, fi, e, i))
      ],
    )

note_all-IsMap :
    (entries : List (Text × FileInfo)) (seen : Map (Unit {0}))
    → IsMap seen
    → IsMap (note_all entries seen)
unfolding note_all
note_all-IsMap [] seen h = h
note_all-IsMap ((k, fi) ∷ entries) seen h =
    note_all-IsMap entries (note_chunks fi.chunk_ids seen) (note_chunks-IsMap fi.chunk_ids seen h)

In-unless :
    {A : Type 0} (d : Bool) (e x : A) (rest : List A)
    → In x (if d then rest else e ∷ rest) ↔ (((e ≡ x) × (d ≡ false)) ⊎ In x rest)
In-unless true e x rest = (inr, λ h. elim h [ inl (q, n) ↦ absurd (cc) | inr i ↦ i ])
In-unless false e x rest = (
  λ h. elim h [ inl q ↦ inl (q, refl) | inr i ↦ inr i ],
  λ h. elim h [ inl (q, n) ↦ inl q | inr i ↦ inr i ],
)

Distinct-unless :
    {A : Type 0} (d : Bool) (e : A) (rest : List A)
    → Distinct rest
    → ¬ In e rest
    → Distinct (if d then rest else e ∷ rest)
Distinct-unless true e rest h new = h
Distinct-unless false e rest h new = (new, h)

module _ {Blob : Type 0} (b : Badger Blob) (c : Codec Blob) where
  -- The entry of one readable item, in front of the others, if it is a file's.
  add_file : Text → Option FileInfo → List (Text × FileInfo) → List (Text × FileInfo)
  add_file k none rest = rest
  add_file k (some fi) rest = if fi.is_dir then rest else (k, fi) ∷ rest

  In-add_file :
      (j : Text) (o : Option FileInfo) (rest : List (Text × FileInfo)) (k : Text) (fi : FileInfo)
      → In (k, fi) (add_file j o rest)
        ↔ (((j ≡ k) × (o ≡ some fi) × (fi.is_dir ≡ false)) ⊎ In (k, fi) rest)
  unfolding add_file
  In-add_file j none rest k fi = ground arith
  In-add_file j (some got) rest k fi =
      let (to, fro) = In-unless got.is_dir (j, got) (k, fi) rest in
      (
        λ h. elim (to h) [
          | inl (q, n) ↦
              inl (ap (λ r. r.0) q, ap (λ r. some (r.1)) q, ap (λ r. r.1.is_dir) (sym q) ∙ n)
          | inr i ↦ inr i
        ],
        λ h. elim h [
          | inl (q, e, n) ↦ fro (inl (ap₂ (λ x y. (x, y)) q (ground arith), ground arith))
          | inr i ↦ fro (inr i)
        ],
      )

  -- The files with their keys.
  file_list : List (Item Blob) → List (Text × FileInfo)
  unfolding add_file
  file_list [] = []
  file_list ((k, err e) ∷ items) = file_list items
  file_list ((k, ok v) ∷ items) = add_file k (c.unmarshal v) (file_list items)

  walk-stats :
      (items : List (Item Blob)) (t : Tally)
      → ((k : Text) (r : Result BadgerError Blob)
          → In (k, r) items
          → (v : Blob) × (r ≡ ok v) × ((fi : FileInfo) × (c.unmarshal v ≡ some fi)))
      → walk b broken_store (stats_step b c) items t
        ≡ ok (record {
          files = t.files + length (file_list items);
          seen = note_all (file_list items) t.seen;
        })
  unfolding walk stats_step file_list add_file note_all
  walk-stats [] t good = ap (λ n. ok (record { files = n; seen = t.seen })) (omega arith)
  walk-stats ((k, r) ∷ items) t good =
      let (v, e, (fi, d)) = good k r (inl refl) in
      let rest = λ (u : Tally). walk-stats items u (λ j s i. good j s (inr i)) in
      elim (Bool-cases fi.is_dir) [
        | inl dir ↦ rw (e, walk, stats_step, file_list, d, add_file, dir) (rest t)
        | inr file ↦
            rw (e, walk, stats_step, file_list, d, add_file, file)
              (rest (record { files = suc t.files; seen = note_chunks fi.chunk_ids t.seen })
                ∙ ap
                    (λ n. ok (record {
                      files = n;
                      seen = note_all (file_list items) (note_chunks fi.chunk_ids t.seen);
                    }))
                    (omega arith))
      ]

  In-file_list :
      (items : List (Item Blob)) (k : Text) (fi : FileInfo)
      → In (k, fi) (file_list items)
        ↔ ((v : Blob) × In (k, ok v) items × (c.unmarshal v ≡ some fi) × (fi.is_dir ≡ false))
  unfolding file_list
  In-file_list [] k fi = (absurd, λ w. absurd w.1)
  In-file_list ((j, err e) ∷ items) k fi = (
    λ f. let (v, i, d, n) = (In-file_list items k fi).0 f in (v, inr i, d, n),
    λ (v, i, d, n). elim i [
      | inl q ↦ absurd (ground (arith, ap (λ r. r.1) q))
      | inr i ↦ (In-file_list items k fi).1 (v, i, d, n)
    ],
  )
  In-file_list ((j, ok w) ∷ items) k fi = (
    λ f. elim ((In-add_file j (c.unmarshal w) (file_list items) k fi).0 f) [
      | inl (q, d, n) ↦ (w, inl (ap (λ t. (t, ok w)) q), d, n)
      | inr f ↦ let (v, i, d, n) = (In-file_list items k fi).0 f in (v, inr i, d, n)
    ],
    λ (v, i, d, n). (In-add_file j (c.unmarshal w) (file_list items) k fi).1 (elim i [
      | inl q ↦ inl (ap (λ r. r.0) q, ground (arith, ap (λ r. r.1) q), n)
      | inr i ↦ inr ((In-file_list items k fi).1 (v, i, d, n))
    ]),
  )

  add_file-Distinct :
      (k : Text) (o : Option FileInfo) (rest : List (Text × FileInfo))
      → Distinct rest
      → ((fi : FileInfo) → ¬ In (k, fi) rest)
      → Distinct (add_file k o rest)
  unfolding add_file
  add_file-Distinct k none rest h new = h
  add_file-Distinct k (some fi) rest h new = Distinct-unless fi.is_dir (k, fi) rest h (new fi)

  file_list-Distinct : (items : List (Item Blob)) → IsListing items → Distinct (file_list items)
  unfolding file_list
  file_list-Distinct [] l = tt
  file_list-Distinct ((k, err e) ∷ items) (gone, l) = file_list-Distinct items l
  file_list-Distinct ((k, ok v) ∷ items) (gone, l) =
      add_file-Distinct k (c.unmarshal v) (file_list items) (file_list-Distinct items l) (λ fi i.
        let (w, j, d, n) = (In-file_list items k fi).0 i in item_at-key items k (ok w) j gone)

  file_stat :
      (ns : b.Db) (k : Text) (fi : FileInfo)
      → In (k, fi) (file_list (b.items (b.begin ns) ns_prefix)) ↔ (
          (path : Text) × (k ≡ ns_prefix ++ path)
          × (stat b c ns path ≡ ok fi)
          × (fi.is_dir ≡ false))
  file_stat ns k fi = (
    λ i.
        let (v, j, d, n) = (In-file_list (b.items (b.begin ns) ns_prefix) k fi).0 i in
        let (h, e) = (item-get_key b c ns ns_prefix k v).0 j in
        let q = has_prefix-split k ns_prefix h in
        (
          drop 3 k,
          q,
          (stat_iff b c ns (drop 3 k) fi).1 (v, subst (λ t. get_key b ns t ≡ ok v) q e, d),
          n,
        ),
    λ (path, q, st, n).
        let (v, e, d) = (stat_iff b c ns path fi).0 st in
        let key = subst (λ t. get_key b ns t ≡ ok v) (sym q) e in
        (In-file_list (b.items (b.begin ns) ns_prefix) k fi).1 (
          v,
          (item-get_key b c ns ns_prefix k v).1 (rw q (has_prefix-append ns_prefix path), key),
          d,
          n,
        ),
  )

  -- In a namespace whose values can be read, Stats succeeds. It counts the files, each once and
  -- directories not, and the chunks, each once, that at least one file refers to.
  pub stats_lem :
      (ns : b.Db)
      → IsReadable b c ns
      → (entries : List (Text × FileInfo)) × (seen : Map (Unit {0})) × (stats b c ns
          ≡ ok (length entries, length seen))
        × Distinct entries
        × ((k : Text) (fi : FileInfo)
            → In (k, fi) entries ↔ (
                (path : Text) × (k ≡ ns_prefix ++ path)
                × (stat b c ns path ≡ ok fi)
                × (fi.is_dir ≡ false)))
        × IsMap seen
        × ((id : String)
            → (contains id seen ≡ true) ↔ (
                (path : Text) × (fi : FileInfo) × (stat b c ns path ≡ ok fi)
                × (fi.is_dir ≡ false)
                × In id fi.chunk_ids))
  unfolding stats scan contains lookup
  stats_lem ns good =
      let items = b.items (b.begin ns) ns_prefix in
      let entries = file_list items in
      let none_seen : Tally = record { files = 0; seen = [] } in
      (
        entries,
        note_all entries [],
        rw (walk-stats items none_seen (λ k r. item-read b c ns ns_prefix k r good))
            (ap (λ n. ok (n, length (note_all entries []))) (omega arith)),
        file_list-Distinct items (b.items-IsListing (b.begin ns) ns_prefix),
        file_stat ns,
        note_all-IsMap entries [] tt,
        λ id.
            let (to, fro) = note_all-contains entries [] id in
            (
              λ h. elim (to h) [
                | inl e ↦ absurd (ground arith)
                | inr (k, fi, i, has) ↦
                    let (path, q, st, n) = (file_stat ns k fi).0 i in (path, fi, st, n, has)
              ],
              λ (path, fi, st, n, has). fro (
                  inr (
                    ns_prefix ++ path,
                    fi,
                    (file_stat ns (ns_prefix ++ path) fi).1 (path, refl, st, n),
                    has,
                  )),
            ),
      )
