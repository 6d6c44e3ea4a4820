-- ===== src/Raft/Replication/Replies.antt =====
-- The replies of a follower, and what the leader notes of them.
use vault_fs.Base.{
  ℕ, ◌+◌, length, inl, inr, ap, ◌∙◌, u64, ltb, if◌then◌else◌, u64_small, length, ◌≤◌, ◌<◌, String,
  true, false, ◌≡◌, refl, arith, lt→ltb, subst, sym, eq_refl, two64,
}
use vault_fs.GoMap.{Map, lookup_or, insert}
use vault_fs.GoMap.Laws.{lookup_or-insert}
use vault_fs.Raft.Types.{AppendEntriesArgs, AppendEntriesReply, leader}
use vault_fs.Raft.Log.{last_index}
use vault_fs.Raft.Log.Shape.{IsWellFormed}
use vault_fs.Raft.Log.Access.{term_beyond}
use vault_fs.Raft.Node.{Node, advance_commit_index}
use vault_fs.Raft.Replication.{
  handle_append_entries, handle_append_reply, accept, recognise, record_match, check_previous,
  conflict_hint, back_up,
}
use vault_fs.Raft.Replication.Follower.{
  handle_append_entries_cases, recognise_lem, handle_current, log-recognise,
}
use vault_fs.Raft.Node.Commit.{advance_commit_index_lem}

term-accept : (n : Node) (args : AppendEntriesArgs) → (accept n args).1.term ≡ n.current_term
unfolding accept
term-accept n args = ground arith

-- The reply that accepts a request is of its term.
pub accepted-term :
    (f : Node) (args : AppendEntriesArgs)
    → (handle_append_entries f args).1.success ≡ true
    → (handle_append_entries f args).1.term ≡ args.term
accepted-term f args done = elim (handle_append_entries_cases f args) [
  | inl (refused, _, _) ↦ absurd (ground arith)
  | inr (current, _, taken) ↦
      ap (λ (p : Node × AppendEntriesReply). p.1.term) taken
      ∙ term-accept (recognise f args) args
      ∙ (recognise_lem f args current).0
]

advance_commit_index-peers :
    (n : Node)
    → ((advance_commit_index n).match_index ≡ n.match_index)
      × ((advance_commit_index n).next_index ≡ n.next_index)
advance_commit_index-peers n = elim (advance_commit_index_lem n) [
  | inl same ↦ (ap (λ (m : Node). m.match_index) same, ap (λ (m : Node). m.next_index) same)
  | inr (_, _, _, only) ↦
      (ap (λ (m : Node). m.match_index) only, ap (λ (m : Node). m.next_index) only)
]

matched-peer :
    (peer : String) (m : Map ℕ) (v : ℕ)
    → lookup_or 0 peer m ≤ v
    → lookup_or 0 peer (if ltb (lookup_or 0 peer m) v then insert peer v m else m) ≡ v
matched-peer peer m v h = ground (arith, lookup_or-insert 0 peer peer v m, eq_refl peer)

-- matchIndex behind an accepted request.
abbrev matches : Node → String → AppendEntriesArgs → Map ℕ
matches n peer args =
    let v = u64 (args.prev_log_index + length args.entries) in
    if ltb (lookup_or 0 peer n.match_index) v then insert peer v n.match_index else n.match_index

-- What a leader notes of a peer that has accepted all that it was sent.
pub record_match-peer :
    (n : Node) (peer : String) (args : AppendEntriesArgs) (last : ℕ)
    → args.prev_log_index + length args.entries ≡ last
    → last + 1 < two64
    → lookup_or 0 peer n.match_index ≤ last
    → (lookup_or 0 peer (record_match n peer args).match_index ≡ last)
      × (lookup_or 0 peer (record_match n peer args).next_index ≡ last + 1)
unfolding record_match
record_match-peer n peer args last whole fits behind =
    let sent : u64 (args.prev_log_index + length args.entries) ≡ last = omega (arith, whole) in
    let matched : lookup_or 0 peer (matches n peer args) ≡ last =
      matched-peer peer n.match_index (u64 (args.prev_log_index + length args.entries))
        (omega arith)
      ∙ sent in
    let kept = advance_commit_index-peers (record n {
      match_index = matches n peer args;
      next_index = insert peer (u64 (lookup_or 0 peer (matches n peer args) + 1)) n.next_index;
    }) in
    (
      ap (lookup_or 0 peer) kept.0 ∙ matched,
      ap (lookup_or 0 peer) kept.1
          ∙ ground (
            arith,
            lookup_or-insert 0 peer peer (u64 (lookup_or 0 peer (matches n peer args) + 1))
                n.next_index,
            eq_refl peer,
            matched,
          ),
    )

pub handle_append_reply-accepted :
    (n : Node) (peer : String) (args : AppendEntriesArgs) (r : AppendEntriesReply)
    → n.state ≡ leader
    → args.term ≡ n.current_term
    → r.term ≡ args.term
    → r.success ≡ true
    → handle_append_reply n peer args r ≡ record_match n peer args
unfolding handle_append_reply
handle_append_reply-accepted n peer args r leads t rt done = rw (leads, done, rt ∙ t) (ground arith)

short_refused :
    (n : Node) (args : AppendEntriesArgs)
    → IsWellFormed n.log
    → last_index n.log < args.prev_log_index
    → last_index n.log + 1 < two64
    → (check_previous n args).1 ≡ record {
      term = n.current_term;
      success = false;
      conflict_index = last_index n.log + 1;
      conflict_term = 0;
    }
unfolding check_previous conflict_hint
short_refused n args w short fits =
    rw
      (
        lt→ltb 0 args.prev_log_index (omega arith),
        term_beyond n.log args.prev_log_index w short,
        lt→ltb (last_index n.log) args.prev_log_index short,
        u64_small (last_index n.log + 1) fits,
      )
      refl

pub back-peer : (peer : String) (v : ℕ) (m : Map ℕ) → lookup_or 0 peer (insert peer v m) ≡ v
back-peer peer v m = ground (arith, lookup_or-insert 0 peer peer v m, eq_refl peer)

-- A follower of no later term whose log ends before prevLogIndex says where it ends.
pub refused_short :
    (f : Node) (args : AppendEntriesArgs)
    → IsWellFormed f.log
    → f.current_term ≤ args.term
    → last_index f.log < args.prev_log_index
    → last_index f.log + 1 < two64
    → (handle_append_entries f args).1 ≡ record {
      term = args.term;
      success = false;
      conflict_index = last_index f.log + 1;
      conflict_term = 0;
    }
refused_short f args w current short fits =
    let same = (log-recognise f args).0 in
    ap (λ (p : Node × AppendEntriesReply). p.1) (handle_current f args current)
    ∙ short_refused (recognise f args) args (subst IsWellFormed (sym same) w)
        (subst (λ l. last_index l < args.prev_log_index) (sym same) short)
        (subst (λ l. last_index l + 1 < two64) (sym same) fits)
    ∙ λ i. record {
      term = (recognise_lem f args current).0 i;
      success = false;
      conflict_index = last_index (same i) + 1;
      conflict_term = 0;
    }

pub backed_up :
    (n : Node) (peer : String) (args : AppendEntriesArgs) (r : AppendEntriesReply) (k : ℕ)
    → n.state ≡ leader
    → args.term ≡ n.current_term
    → r ≡ record { term = args.term; success = false; conflict_index = k + 1; conflict_term = 0 }
    → handle_append_reply n peer args r ≡ record n { next_index = insert peer (k + 1) n.next_index }
unfolding handle_append_reply back_up
backed_up n peer args r k leads t e = rw (e, leads) (ground arith)
