-- ===== src/Metadata/ChunkMap/Shape.antt =====
-- What a chunk map looks like: no empty list of replicas, and no node twice in a list.
use vault_fs.Base.{
  ◌<◌, ◌≡◌, refl, inl, inr, String, Option, none, some, List, [], ◌∷◌, arith, ◌==◌, if◌then◌else◌,
  Bool-cases, Option-cases, length, str_eq, eq_iff,
}
use vault_fs.GoMap.{Map, IsMap, lookup, lookup_or}
use vault_fs.GoMap.Laws.{lookup-insert, lookup-erase, insert-IsMap, erase-IsMap}
use vault_fs.Metadata.ChunkMap.{
  Location, ChunkMap, put, add_location, without, remove_location, evict, remove_node,
}

-- The replica on a node, in a list of replicas.
unfoldable pub on_node : String → List Location → Option Location
on_node node_id [] = none
on_node node_id (l ∷ locs) = if str_eq l.node_id node_id then some l else on_node node_id locs

-- Each node stands once.
abbrev pub IsSpread : List Location → Type 0
IsSpread [] = Unit {0}
IsSpread (l ∷ locs) = (on_node l.node_id locs ≡ none) × IsSpread locs

pub on_node-put :
    (locs : List Location) (loc : Location) (node_id : String)
    → on_node node_id (put locs loc)
      ≡ (if str_eq loc.node_id node_id then some loc else on_node node_id locs)
unfolding on_node put
on_node-put [] loc node_id = refl
on_node-put (l ∷ locs) loc node_id = ground (
  arith,
  on_node-put locs loc node_id,
  eq_iff l.node_id loc.node_id,
  eq_iff l.node_id node_id,
  eq_iff loc.node_id node_id,
)

pub put-IsSpread : (locs : List Location) (loc : Location) → IsSpread locs → IsSpread (put locs loc)
unfolding on_node put
put-IsSpread [] loc h = (refl, tt)
put-IsSpread (l ∷ locs) loc h = ground (
  arith,
  put-IsSpread locs loc h.1,
  on_node-put locs loc l.node_id,
  eq_iff l.node_id loc.node_id,
  eq_iff loc.node_id l.node_id,
)

pub on_node-without :
    (gone : String) (locs : List Location) (node_id : String)
    → on_node node_id (without gone locs)
      ≡ (if str_eq gone node_id then none else on_node node_id locs)
unfolding on_node without
on_node-without gone [] node_id = ground arith
on_node-without gone (l ∷ locs) node_id = ground (
  arith,
  on_node-without gone locs node_id,
  eq_iff l.node_id gone,
  eq_iff l.node_id node_id,
  eq_iff gone node_id,
)

pub without-IsSpread :
    (gone : String) (locs : List Location) → IsSpread locs → IsSpread (without gone locs)
unfolding on_node without
without-IsSpread gone [] h = tt
without-IsSpread gone (l ∷ locs) h = ground (
  arith,
  without-IsSpread gone locs h.1,
  on_node-without gone locs l.node_id,
  eq_iff l.node_id gone,
  eq_iff gone l.node_id,
)

pub length-put : (locs : List Location) (loc : Location) → 0 < length (put locs loc)
unfolding put
length-put [] loc = omega arith
length-put (l ∷ locs) loc = ground (arith, length-put locs loc)

-- Each chunk stands once, with at least one replica, and each replica on a node of its own.
pub record IsTidy (cm : ChunkMap) : Type 0 where
  pub map : IsMap cm.locations
  pub spread :
      (id : String) (locs : List Location) → lookup id cm.locations ≡ some locs → IsSpread locs
  pub inhabited :
      (id : String) (locs : List Location) → lookup id cm.locations ≡ some locs → 0 < length locs

pub IsSpread-lookup_or :
    (cm : ChunkMap) (id : String) → IsTidy cm → IsSpread (lookup_or [] id cm.locations)
unfolding lookup_or
IsSpread-lookup_or cm id t = elim (Option-cases (lookup id cm.locations)) [
  | inl e ↦ ground arith
  | inr (locs, e) ↦ ground (arith, t.spread id locs e)
]

pub add_location-IsTidy :
    (cm : ChunkMap) (id : String) (loc : Location) → IsTidy cm → IsTidy (add_location cm id loc)
unfolding add_location
add_location-IsTidy cm id loc t =
    let locs = put (lookup_or [] id cm.locations) loc in
    record {
      map = insert-IsMap id locs cm.locations t.map;
      spread = λ j ls h. ground (
        arith,
        lookup-insert id j locs cm.locations,
        t.spread j ls,
        put-IsSpread (lookup_or [] id cm.locations) loc (IsSpread-lookup_or cm id t),
      );
      inhabited = λ j ls h. ground (
        arith,
        lookup-insert id j locs cm.locations,
        t.inhabited j ls,
        length-put (lookup_or [] id cm.locations) loc,
      );
    }

pub lookup-evict :
    (gone id : String) (m : Map (List Location))
    → IsMap m
    → lookup id (evict gone m) ≡ elim (lookup id m) [
      | none ↦ none
      | some locs ↦ if length (without gone locs) == 0 then none else some (without gone locs)
    ]
unfolding evict lookup
lookup-evict gone id [] h = refl
lookup-evict gone id ((k, locs) ∷ m) h = ground (arith, lookup-evict gone id m h.1, eq_iff k id)

evict-IsMap : (gone : String) (m : Map (List Location)) → IsMap m → IsMap (evict gone m)
unfolding evict
evict-IsMap gone [] h = tt
evict-IsMap gone ((k, locs) ∷ m) h =
    ground (arith, evict-IsMap gone m h.1, lookup-evict gone k m h.1)

kept_locs :
    (gone id : String) (cm : ChunkMap) (ls : List Location)
    → IsMap cm.locations
    → lookup id (evict gone cm.locations) ≡ some ls
    → (locs : List Location) × (lookup id cm.locations ≡ some locs)
      × (ls ≡ without gone locs)
      × (0 < length ls)
kept_locs gone id cm ls w h = elim (Option-cases (lookup id cm.locations)) [
  | inl e ↦ absurd (ground (arith, lookup-evict gone id cm.locations w))
  | inr (locs, e) ↦ (
    locs,
    e,
    ground (arith, lookup-evict gone id cm.locations w),
    ground (arith, lookup-evict gone id cm.locations w),
  )
]

pub remove_node-IsTidy : (cm : ChunkMap) (gone : String) → IsTidy cm → IsTidy (remove_node cm gone)
unfolding remove_node
remove_node-IsTidy cm gone t = record {
  map = evict-IsMap gone cm.locations t.map;
  spread = λ j ls h.
      let (locs, e, same, _) = kept_locs gone j cm ls t.map h in
      rw same (without-IsSpread gone locs (t.spread j locs e));
  inhabited =
      λ j ls h. let (locs, e, same, some_left) = kept_locs gone j cm ls t.map h in some_left;
}

pub remove_location-IsTidy :
    (cm : ChunkMap) (id gone : String) → IsTidy cm → IsTidy (remove_location cm id gone)
unfolding remove_location
remove_location-IsTidy cm id gone t =
    let out = without gone (lookup_or [] id cm.locations) in
    elim (Bool-cases (length out == 0)) [
      | inl e ↦ rw e (record {
        map = erase-IsMap id cm.locations t.map;
        spread = λ j ls h. ground (arith, lookup-erase id j cm.locations, t.spread j ls);
        inhabited = λ j ls h. ground (arith, lookup-erase id j cm.locations, t.inhabited j ls);
      })
      | inr e ↦ rw e (record {
        map = insert-IsMap id out cm.locations t.map;
        spread = λ j ls h. ground (
          arith,
          lookup-insert id j out cm.locations,
          t.spread j ls,
          without-IsSpread gone (lookup_or [] id cm.locations) (IsSpread-lookup_or cm id t),
        );
        inhabited = λ j ls h. ground (arith, lookup-insert id j out cm.locations, t.inhabited j ls);
      })
    ]
