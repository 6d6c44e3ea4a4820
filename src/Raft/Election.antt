-- ===== src/Raft/Election.antt =====
-- internal/raft/election.go: the start of an election, the replies of its voters, and the vote.
pub mod Votes
pub mod Quorum
use vault_fs.Base.{
  ℕ, ◌+◌, ◌/◌, String, Bool, true, false, not, ◌&&◌, ◌||◌, Option, none, some, ltb, leb, ◌==◌,
  if◌then◌else◌, length, u64, str_eq,
}
use vault_fs.Raft.Types.{candidate, RequestVoteArgs, RequestVoteReply}
use vault_fs.Raft.Log.{last_index, last_term}
use vault_fs.Raft.Node.{Node, is_leader, is_candidate, become_follower, become_leader}

-- The variables that the goroutines of one election share.
pub record Ballot : Type 0 where
  pub term : ℕ
  pub quorum : ℕ
  pub votes : ℕ
  pub once : Bool  -- `once.Do` has run

-- `quorum` of maybeStartElection
unfoldable pub election_quorum : Node → ℕ
election_quorum n = (length n.peers + 1) / 2 + 1

-- maybeStartElection up to the first Unlock; `none` for a leader.
unfoldable pub begin_election : Node → Option (Node × Ballot × RequestVoteArgs)
unfolding election_quorum
begin_election n =
    if is_leader n.state
    then none
    else let t = u64 (n.current_term + 1) in
      some (
        record n { state = candidate; current_term = t; voted_for = n.id; leader_id = "" },
        record { term = t; quorum = election_quorum n; votes = 1; once = false },
        record {
          term = t;
          candidate_id = n.id;
          last_log_index = last_index n.log;
          last_log_term = last_term n.log;
        },
      )

-- The branch of maybeStartElection in which the own vote is a quorum.
unfoldable pub win_alone : Ballot → Node → Node
unfolding become_leader
win_alone b n =
    if leb b.quorum b.votes && (is_candidate n.state && n.current_term == b.term)
    then become_leader n
    else n

-- What a vote goroutine does with the reply to its request.
unfoldable pub handle_vote_reply : Ballot → Node → RequestVoteReply → Ballot × Node
unfolding become_follower become_leader
handle_vote_reply b n reply =
    if ltb n.current_term reply.term
    then (b, become_follower n reply.term)
    else if not reply.vote_granted || (not (is_candidate n.state) || not (n.current_term == b.term))
    then (b, n)
    else let counted = record b { votes = b.votes + 1 } in
      if leb b.quorum counted.votes && not b.once
      then (record counted { once = true }, become_leader n)
      else (counted, n)

unfoldable pub log_up_to_date : Node → ℕ → ℕ → Bool
log_up_to_date n last_log_index last_log_term =
    if not (last_log_term == last_term n.log)
    then ltb (last_term n.log) last_log_term
    else leb (last_index n.log) last_log_index

unfoldable pub already_voted : Node → String → Bool
already_voted n c = not (str_eq n.voted_for "") && not (str_eq n.voted_for c)

-- HandleRequestVote behind the two tests of the term.
unfoldable pub vote : Node → RequestVoteArgs → Node × RequestVoteReply
unfolding log_up_to_date already_voted
vote n args =
    if already_voted n args.candidate_id
    then (n, record { term = n.current_term; vote_granted = false })
    else if not (log_up_to_date n args.last_log_index args.last_log_term)
    then (n, record { term = n.current_term; vote_granted = false })
    else (
      record n { voted_for = args.candidate_id; election_reset = true },
      record { term = n.current_term; vote_granted = true },
    )

unfoldable pub handle_request_vote : Node → RequestVoteArgs → Node × RequestVoteReply
unfolding vote become_follower
handle_request_vote n args =
    if ltb args.term n.current_term
    then (n, record { term = n.current_term; vote_granted = false })
    else vote (if ltb n.current_term args.term then become_follower n args.term else n) args
