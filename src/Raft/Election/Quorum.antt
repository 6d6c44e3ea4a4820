-- ===== src/Raft/Election/Quorum.antt =====
-- How many votes make a leader.
use vault_fs.Base.{
  ℕ, ◌+◌, ◌*◌, ◌%◌, ◌≤◌, ◌<◌, ◌≡◌, ◌⊎◌, inl, inr, ◌==◌, refl, true, false, arith, List, [], ◌∷◌,
  ltb, leb, tests, ltb→lt, ltb→ge, if◌then◌else◌, length, All, Bool-cases, inl, inr, le→leb, ◌∙◌,
  ap, sym,
}
use vault_fs.Raft.Types.{candidate, leader, RequestVoteReply}
use vault_fs.Raft.Node.{Node, is_leader, become_leader, commit_quorum}
use vault_fs.Raft.Election.{Ballot, election_quorum, handle_vote_reply}

-- The least majority of the cluster, which is the peers and the node itself.
pub election_quorum_majority :
    (n : Node)
    → (length n.peers + 1 < 2 * election_quorum n) × (2 * election_quorum n ≤ length n.peers + 3)
unfolding election_quorum
election_quorum_majority n = omega arith

-- The two quorums of the code agree where the cluster has an odd number of nodes. In an even one
-- half of the nodes is enough to commit, and no majority.
pub commit_quorum_lem :
    (n : Node)
    → (((length n.peers + 1) % 2 ≡ 1) × (commit_quorum n ≡ election_quorum n))
      ⊎ (((length n.peers + 1) % 2 ≡ 0)
          × (2 * commit_quorum n ≡ length n.peers + 1)
          × (election_quorum n ≡ commit_quorum n + 1))
unfolding commit_quorum election_quorum
commit_quorum_lem n = elim (Bool-cases ((length n.peers + 1) % 2 == 1)) [
  | inl odd ↦ inl (ground arith, ground arith)
  | inr even ↦ inr (ground arith, ground arith, ground arith)
]

-- The replies of one election in the order in which they arrive.
unfoldable pub run_election : Ballot → Node → List RequestVoteReply → Ballot × Node
run_election b n [] = (b, n)
run_election b n (r ∷ rs) = let (b', n') = handle_vote_reply b n r in run_election b' n' rs

abbrev pub granted : List RequestVoteReply → ℕ
granted [] = 0
granted (r ∷ rs) = (if r.vote_granted then 1 else 0) + granted rs

-- No reply is of a term above t.
abbrev pub NoneNewer : ℕ → List RequestVoteReply → Type 0
NoneNewer t = All (λ r. r.term ≤ t)

leader_stays :
    (b : Ballot) (n : Node) (rs : List RequestVoteReply)
    → n.state ≡ leader
    → NoneNewer n.current_term rs
    → (run_election b n rs).1 ≡ n
unfolding run_election handle_vote_reply
leader_stays b n [] s h = refl
leader_stays b n (r ∷ rs) s h = ground (arith, leader_stays b n rs s h.1)

won :
    (b : Ballot) (n : Node)
    → n.state ≡ candidate
    → ((become_leader n).state ≡ leader) × ((become_leader n).current_term ≡ n.current_term)
unfolding become_leader
won b n s = ground arith

-- One reply to a candidate that is still in the term of its ballot.
module _ (b : Ballot) (n : Node) (r : RequestVoteReply) (s : n.state ≡ candidate)
    (t : n.current_term ≡ b.term) (o : b.once ≡ false) (h : r.term ≤ n.current_term) where
  refused_vote : r.vote_granted ≡ false → handle_vote_reply b n r ≡ (b, n)
  unfolding handle_vote_reply
  refused_vote g = ground arith

  counted_vote :
      r.vote_granted ≡ true
      → b.votes + 1 < b.quorum
      → handle_vote_reply b n r ≡ (record b { votes = b.votes + 1 }, n)
  unfolding handle_vote_reply
  counted_vote g q = ground arith

  winning_vote :
      r.vote_granted ≡ true
      → b.quorum ≤ b.votes + 1
      → handle_vote_reply b n r ≡ (record b { votes = b.votes + 1; once = true }, become_leader n)
  unfolding handle_vote_reply
  winning_vote g q = ground arith

-- The election after its first reply.
after_reply :
    (b : Ballot) (n : Node) (r : RequestVoteReply) {b' : Ballot} {n' : Node}
    (rs : List RequestVoteReply)
    → handle_vote_reply b n r ≡ (b', n')
    → is_leader (run_election b n (r ∷ rs)).1.state ≡ is_leader (run_election b' n' rs).1.state
unfolding run_election
after_reply b n r rs e = ap (λ p. is_leader (run_election p.0 p.1 rs).1.state) e

-- A candidate in the term of its election, with fewer votes than the quorum so far, gets replies
-- none of which is of a newer term: it leads after them exactly if its votes with the granted ones
-- reach the quorum.
pub elected_iff :
    (b : Ballot) (n : Node) (rs : List RequestVoteReply)
    → n.state ≡ candidate
    → n.current_term ≡ b.term
    → b.once ≡ false
    → b.votes < b.quorum
    → NoneNewer n.current_term rs
    → is_leader (run_election b n rs).1.state ≡ leb b.quorum (b.votes + granted rs)
elected_iff b n [] s t o v h = unfold run_election in ground arith
elected_iff b n (r ∷ rs) s t o v h = elim (Bool-cases r.vote_granted) [
  | inr refused ↦
      after_reply b n r rs (refused_vote b n r s t o h.0 refused)
      ∙ elected_iff b n rs s t o v h.1
      ∙ ap (leb b.quorum) (rw refused (omega arith))
  | inl given ↦ elim (Bool-cases (ltb (b.votes + 1) b.quorum)) [
    | inl short ↦
        after_reply b n r rs (counted_vote b n r s t o h.0 given (ltb→lt _ _ short))
        ∙ elected_iff (record b { votes = b.votes + 1 }) n rs s t o (ltb→lt _ _ short) h.1
        ∙ ap (leb b.quorum) (rw given (omega arith))
    | inr reached ↦
        after_reply b n r rs (winning_vote b n r s t o h.0 given (ltb→ge _ _ reached))
        ∙ ap (λ (m : Node). is_leader m.state)
            (leader_stays (record b { votes = b.votes + 1; once = true }) (become_leader n) rs
              (won b n s).0 (rw (won b n s).1 h.1))
        ∙ ap is_leader (won b n s).0
        ∙ sym (le→leb _ _ (rw given (omega tests)))
  ]
]
