-- ===== src/Raft/Election/Votes.antt =====
-- What a node that answers RequestVote promises.
use vault_fs.Base.{◌≤◌, ◌<◌, ◌≡◌, ◌≢◌, ◌⊎◌, true, false, arith, eq_iff}
use vault_fs.Raft.Types.{RequestVoteArgs}
use vault_fs.Raft.Log.{last_index, last_term}
use vault_fs.Raft.Node.{Node, become_follower}
use vault_fs.Raft.Election.{handle_request_vote}

-- The candidate's log is at least as up to date as that of the node.
abbrev pub IsUpToDate : Node → RequestVoteArgs → Type 0
IsUpToDate n args =
    (last_term n.log < args.last_log_term)
    ⊎ ((args.last_log_term ≡ last_term n.log) × (last_index n.log ≤ args.last_log_index))

-- A granted vote is for a term that is not over, goes to a log that is up to date, is the node's
-- vote of that term, and the reply has that term.
pub granted_lem :
    (n : Node) (args : RequestVoteArgs)
    → (handle_request_vote n args).1.vote_granted ≡ true
    → let m = (handle_request_vote n args).0 in
      (n.current_term ≤ args.term)
      × (m.current_term ≡ args.term)
      × (m.voted_for ≡ args.candidate_id)
      × (m.election_reset ≡ true)
      × ((handle_request_vote n args).1.term ≡ args.term)
      × IsUpToDate n args
unfolding handle_request_vote
granted_lem n args h = ground arith

-- A vote that is refused stays: voted_for changes only where the term rises, and then it is cleared.
pub refused_lem :
    (n : Node) (args : RequestVoteArgs)
    → (handle_request_vote n args).1.vote_granted ≡ false
    → let m = (handle_request_vote n args).0 in
      ((m ≡ n) × (args.term ≤ n.current_term))
      ⊎ ((m ≡ become_follower n args.term) × (n.current_term < args.term))
unfolding handle_request_vote
refused_lem n args h = ground arith

-- Two votes that a node grants one right after the other for one term, the first to a candidate
-- with a name, go to one candidate.
pub one_vote_per_term :
    (n : Node) (a b : RequestVoteArgs)
    → a.candidate_id ≢ ""
    → a.term ≡ b.term
    → (handle_request_vote n a).1.vote_granted ≡ true
    → (handle_request_vote (handle_request_vote n a).0 b).1.vote_granted ≡ true
    → a.candidate_id ≡ b.candidate_id
unfolding handle_request_vote
one_vote_per_term n a b named same first second =
    ground (arith, eq_iff a.candidate_id "", eq_iff a.candidate_id b.candidate_id)

-- The term never falls, and the log and the commit index stay.
pub handle_request_vote_keeps :
    (n : Node) (args : RequestVoteArgs)
    → let m = (handle_request_vote n args).0 in
      (n.current_term ≤ m.current_term) × (m.log ≡ n.log) × (m.commit_index ≡ n.commit_index)
unfolding handle_request_vote
handle_request_vote_keeps n args = ground arith
