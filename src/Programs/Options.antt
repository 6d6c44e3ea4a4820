-- ===== src/Programs/Options.antt =====
-- The lists are read back as they are written, and a master takes only itself off its peers.
use vault_fs.Base.{
  ℕ, true, false, List, [], ◌∷◌, ◌++◌, ◌≡◌, ◌↔◌, refl, ◌∙◌, ap, ap₂, subst, inl, inr, Text, text_eq,
  has_char, split, In, All, arith, Bool-cases,
}
use vault_fs.Programs.{
  comma, at_sign, trim_space, cut, keep_entries, split_list, first_label, drop_self, ChunkNode,
  parse_node, parse_nodes, parse_chunk_nodes,
}

split-piece : (c : ℕ) (x s : Text) → has_char c x ≡ false → split c (x ++ c ∷ s) ≡ x ∷ split c s
split-piece c [] s h = ground arith
split-piece c (d ∷ x) s h = ground (arith, split-piece c x s)

split-last : (c : ℕ) (x : Text) → has_char c x ≡ false → split c x ≡ x ∷ []
split-last c [] h = refl
split-last c (d ∷ x) h = ground (arith, split-last c x)

cut-piece : (c : ℕ) (x s : Text) → has_char c x ≡ false → cut c (x ++ c ∷ s) ≡ (x, s, true)
unfolding cut
cut-piece c [] s h = ground arith
cut-piece c (d ∷ x) s h = ground (arith, cut-piece c x s)

-- The entries with commas between them.
abbrev pub join : List Text → Text
join [] = []
join (x ∷ []) = x
join (x ∷ y ∷ xs) = x ++ comma ∷ join (y ∷ xs)

-- The entry is not empty and has no comma, and no space at either end.
pub record IsEntry (x : Text) : Type 0 where
  pub inhabited : text_eq x [] ≡ false
  pub whole : has_char comma x ≡ false
  pub trimmed : trim_space x ≡ x

split_list-join : (xs : List Text) → All IsEntry xs → split_list (join xs) ≡ xs
unfolding split_list keep_entries
split_list-join [] h = unfold trim_space in ground arith
split_list-join (x ∷ []) (e, h) =
    rw (split-last comma x e.whole, e.trimmed, keep_entries, e.inhabited) refl
split_list-join (x ∷ y ∷ xs) (e, h) =
    rw (split-piece comma x (join (y ∷ xs)) e.whole, e.trimmed, keep_entries, e.inhabited)
      (ap (λ t. x ∷ t) (split_list-join (y ∷ xs) h))

-- id@addr
abbrev pub written : ChunkNode → Text
written n = n.node_id ++ at_sign ∷ n.address

abbrev pub all_written : List ChunkNode → List Text
all_written [] = []
all_written (n ∷ nodes) = written n ∷ all_written nodes

-- The pair is one entry of the list, and the name has no at sign.
abbrev pub IsNode : ChunkNode → Type 0
IsNode n = (has_char at_sign n.node_id ≡ false) × IsEntry (written n)

entries_of : (nodes : List ChunkNode) → All IsNode nodes → All IsEntry (all_written nodes)
entries_of [] h = tt
entries_of (n ∷ nodes) (e, h) = (e.1, entries_of nodes h)

parse_nodes-written :
    (nodes : List ChunkNode) → All IsNode nodes → parse_nodes (all_written nodes) ≡ nodes
unfolding parse_nodes parse_node
parse_nodes-written [] h = refl
parse_nodes-written (n ∷ nodes) (e, h) =
    ap₂ (λ m ms. m ∷ ms) (rw (parse_node, cut-piece at_sign n.node_id n.address e.0) refl)
      (parse_nodes-written nodes h)

-- A list of chunk servers, each written as its name, an at sign and its address, with commas in
-- between, is parsed to those servers, where no name has an at sign and no entry has a comma or a
-- space at an end.
pub parse_chunk_nodes_lem :
    (nodes : List ChunkNode)
    → All IsNode nodes
    → parse_chunk_nodes (join (all_written nodes)) ≡ nodes
unfolding parse_chunk_nodes
parse_chunk_nodes_lem nodes h =
    ap parse_nodes (split_list-join (all_written nodes) (entries_of nodes h))
    ∙ parse_nodes-written nodes h

-- dropSelf keeps exactly the peers whose first label is not the node's name.
pub drop_self_lem :
    (peers : List Text) (node_id p : Text)
    → In p (drop_self peers node_id) ↔ (In p peers × (text_eq (first_label p) node_id ≡ false))
unfolding drop_self
drop_self_lem [] node_id p = (absurd, λ w. absurd w.0)
drop_self_lem (q ∷ peers) node_id p =
    let (to, fro) = drop_self_lem peers node_id p in
    elim (Bool-cases (text_eq (first_label q) node_id)) [
      | inl own ↦ rw own (
        (λ i. let (j, e) = to i in (inr j, e)),
        λ (i, e). elim i [
          | inl q ↦ absurd (ground (arith, ap (λ t. text_eq (first_label t) node_id) q))
          | inr j ↦ fro (j, e)
        ],
      )
      | inr other ↦ rw other (
        (λ i. elim i [
          | inl q ↦ (inl q, subst (λ t. text_eq (first_label t) node_id ≡ false) q other)
          | inr j ↦ let (k, e) = to j in (inr k, e)
        ]),
        λ (i, e). elim i [ inl q ↦ inl q | inr j ↦ inr (fro (j, e)) ],
      )
    ]
