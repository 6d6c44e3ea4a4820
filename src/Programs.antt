-- ===== src/Programs.antt =====
-- cmd/master/main.go and cmd/chunkserver/main.go: the lists in their options, as texts. What the
-- programs do besides is to connect the other parts.
pub mod Options
pub mod Heartbeats
mod Tests
use vault_fs.Base.{
  ℕ, Bool, true, false, not, ◌||◌, ◌&&◌, List, [], ◌∷◌, ◌++◌, Text, text_eq, split, leb, ◌==◌,
  if◌then◌else◌,
}

abbrev pub comma : ℕ
comma = 44

abbrev pub colon : ℕ
colon = 58

abbrev pub dot : ℕ
dot = 46

abbrev pub at_sign : ℕ
at_sign = 64

-- unicode.IsSpace
abbrev pub is_space : ℕ → Bool
is_space c =
    (leb 9 c && leb c 13)
    || ((c == 32)
        || ((c == 133)
            || ((c == 160)
                || ((c == 5760)
                    || ((leb 8192 c && leb c 8202)
                        || ((c == 8232)
                            || ((c == 8233) || ((c == 8239) || ((c == 8287) || (c == 12288))))))))))

-- strings.TrimSpace
unfoldable pub trim_left_space : Text → Text
trim_left_space [] = []
trim_left_space (c ∷ s) = let rest = trim_left_space s in if is_space c then rest else c ∷ s

unfoldable pub trim_right_space : Text → Text
trim_right_space [] = []
trim_right_space (c ∷ s) =
    let rest = trim_right_space s in if is_space c && text_eq rest [] then [] else c ∷ rest

unfoldable pub trim_space : Text → Text
unfolding trim_left_space trim_right_space
trim_space s = trim_right_space (trim_left_space s)

-- strings.Cut, for one character.
unfoldable pub cut : ℕ → Text → Text × Text × Bool
cut c [] = ([], [], false)
cut c (d ∷ s) =
    let (before, after, found) = cut c s in
    if d == c then ([], s, true) else (d ∷ before, after, found)

-- envOr, on the value of the variable.
unfoldable pub env_or : Text → Text → Text
env_or value default = if text_eq value [] then default else value

-- The loop of splitList.
unfoldable pub keep_entries : List Text → List Text
unfolding trim_space
keep_entries [] = []
keep_entries (p ∷ parts) =
    let rest = keep_entries parts in
    if not (text_eq (trim_space p) []) then trim_space p ∷ rest else rest

unfoldable pub split_list : Text → List Text
unfolding keep_entries
split_list s = keep_entries (split comma s)

-- The first label of the host of a peer.
unfoldable pub first_label : Text → Text
unfolding cut
first_label p =
    let (h, port, found) = cut colon p in let host = if found then h else p in (cut dot host).0

unfoldable pub drop_self : List Text → Text → List Text
unfolding first_label
drop_self [] node_id = []
drop_self (p ∷ peers) node_id =
    let rest = drop_self peers node_id in if text_eq (first_label p) node_id then rest else p ∷ rest

-- The message NodeInfo, whose texts are taken apart here.
pub record ChunkNode : Type 0 where
  pub node_id : Text
  pub address : Text

-- The loop body of parseChunkNodes.
unfoldable pub parse_node : Text → ChunkNode
unfolding cut
parse_node item =
    let (name, address, found) = cut at_sign item in
    if found
    then record { node_id = name; address = address }
    else record { node_id = item; address = item }

unfoldable pub parse_nodes : List Text → List ChunkNode
unfolding parse_node
parse_nodes [] = []
parse_nodes (item ∷ items) = parse_node item ∷ parse_nodes items

unfoldable pub parse_chunk_nodes : Text → List ChunkNode
unfolding split_list parse_nodes
parse_chunk_nodes spec = parse_nodes (split_list spec)
