-- ===== src/Programs/Tests.antt =====
-- The options of a small cluster.
use vault_fs.Base.{[], ◌∷◌, ◌≡◌, refl, chars}
use vault_fs.Programs.{
  trim_space, trim_left_space, trim_right_space, cut, first_label, drop_self, ChunkNode,
  parse_chunk_nodes,
}
use vault_fs.Programs.Options.{IsEntry, written, parse_chunk_nodes_lem}

abbrev s1 : ChunkNode
s1 = record { node_id = chars "s1"; address = chars "h:9100" }

abbrev s2 : ChunkNode
s2 = record { node_id = chars "s2"; address = chars "i:9100" }

s1-IsEntry : IsEntry (written s1)
unfolding trim_space trim_left_space trim_right_space
s1-IsEntry = record { inhabited = refl; whole = refl; trimmed = refl }

s2-IsEntry : IsEntry (written s2)
unfolding trim_space trim_left_space trim_right_space
s2-IsEntry = record { inhabited = refl; whole = refl; trimmed = refl }

parse_example : parse_chunk_nodes (chars "s1@h:9100,s2@i:9100") ≡ s1 ∷ s2 ∷ []
parse_example = parse_chunk_nodes_lem (s1 ∷ s2 ∷ []) ((refl, s1-IsEntry), ((refl, s2-IsEntry), tt))

own_label : first_label (chars "m-0.vaultfs:9200") ≡ chars "m-0"
unfolding first_label cut
own_label = refl

others :
    drop_self (chars "m-0.vaultfs:9200" ∷ chars "m-1.vaultfs:9200" ∷ []) (chars "m-0")
    ≡ chars "m-1.vaultfs:9200" ∷ []
unfolding drop_self first_label cut
others = refl
