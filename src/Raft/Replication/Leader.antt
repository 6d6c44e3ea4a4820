-- ===== src/Raft/Replication/Leader.antt =====
-- What a leader sends, and that a follower that accepts it has the leader's terms.
use vault_fs.Base.{
  ℕ, suc, ◌+◌, ◌-◌, ◌≤◌, ◌<◌, ◌≡◌, refl, true, length, length-take, length-drop, String, arith, ok,
  subst, sym, ◌∙◌, ap, List, some, two64, u64_small, sub64, sub64_small, get_elem?, drop,
  get_elem?-lt, lt→ltb,
}
use vault_fs.GoMap.{lookup_or}
use vault_fs.Raft.Types.{AppendEntriesArgs, Entry, leader}
use vault_fs.Raft.Log.{last_index, term, slice, entry_term}
use vault_fs.Raft.Log.Shape.{IsWellFormed, Indexed, Indexed-take, Indexed-drop, last_index_lem}
use vault_fs.Raft.Log.Access.{term_above, slice_lem, get_elem?-slice, term_known}
use vault_fs.Raft.Node.{Node}
use vault_fs.Raft.Replication.{append_entries, outgoing, prepare_append, handle_append_entries}
use vault_fs.Raft.Replication.Follower.{accepted_lem}

same_request : (a b : AppendEntriesArgs) → append_entries a ≡ append_entries b → a ≡ b
same_request a b e = cc

-- A leader with a well-formed log, and a peer whose next index it has not compacted.
module _ (n : Node) (peer : String) (leads : n.state ≡ leader) (w : IsWellFormed n.log)
    (fits : last_index n.log + 1 < two64) (above : n.log.snap_index < lookup_or 0 peer n.next_index)
    (within : lookup_or 0 peer n.next_index ≤ last_index n.log + 1) where
  next : ℕ
  next = lookup_or 0 peer n.next_index

  sent : List Entry
  sent = slice n.log next (last_index n.log + 1)

  prev_known : (t : ℕ) × (term n.log (next - 1) ≡ ok t)
  unfolding next
  prev_known = term_known n.log (next - 1) w (omega arith) (omega arith)

  request : AppendEntriesArgs
  request = record {
    term = n.current_term;
    leader_id = n.id;
    prev_log_index = next - 1;
    prev_log_term = prev_known.0;
    entries = sent;
    leader_commit = n.commit_index;
  }

  prepared : prepare_append n peer ≡ append_entries request
  unfolding prepare_append next sent request
  prepared = rw leads (
      ap (outgoing n next) (ap (term n.log) before ∙ prev_known.1) ∙ λ i. append_entries (record {
        term = n.current_term;
        leader_id = n.id;
        prev_log_index = before i;
        prev_log_term = prev_known.0;
        entries = slice n.log next (u64_small (last_index n.log + 1) fits i);
        leader_commit = n.commit_index;
      }))
    where
      before : sub64 next 1 ≡ next - 1
      before = sub64_small next 1 (omega arith) (omega arith)

  sent_at :
      (j : ℕ)
      → next ≤ j
      → j ≤ last_index n.log
      → (e : Entry) × (get_elem? sent (j - next) ≡ some e) × (term n.log j ≡ ok e.term)
  unfolding next sent
  sent_at j lo hi =
      let (e, found) =
        get_elem?-lt n.log.entries (j - n.log.snap_index - 1)
          (omega (arith, last_index_lem n.log w)) in
      (
        e,
        get_elem?-slice n.log next (last_index n.log + 1) (j - next) above
            ∙ rw (lt→ltb (next + (j - next)) (last_index n.log + 1) (omega arith))
                (ap (get_elem? n.log.entries) (omega arith) ∙ found),
        term_above n.log j (omega arith) ∙ ap entry_term found,
      )

  sent-Indexed : Indexed next sent
  unfolding next sent
  sent-Indexed = rw (slice_lem n.log next (last_index n.log + 1) above) (
      Indexed-take next (last_index n.log + 1 - next)
        (drop (next - n.log.snap_index - 1) n.log.entries)
        (subst (λ k. Indexed k (drop (next - n.log.snap_index - 1) n.log.entries)) (omega arith)
          (Indexed-drop (suc n.log.snap_index) (next - n.log.snap_index - 1) n.log.entries w)))

  -- A leader with a well-formed log, where the peer's next index is not compacted, sends the
  -- entries from that index on, numbered from there, behind the index and the term of the entry
  -- before them.
  pub prepare_append_lem :
      (args : AppendEntriesArgs) × (prepare_append n peer ≡ append_entries args)
      × (args.prev_log_index + 1 ≡ lookup_or 0 peer n.next_index)
      × (term n.log args.prev_log_index ≡ ok args.prev_log_term)
      × Indexed (suc args.prev_log_index) args.entries
      × ((j : ℕ)
          → lookup_or 0 peer n.next_index ≤ j
          → j ≤ last_index n.log
          → (e : Entry) × (get_elem? args.entries (j - lookup_or 0 peer n.next_index) ≡ some e)
            × (term n.log j ≡ ok e.term))
  unfolding request next
  prepare_append_lem = (
    request,
    prepared,
    omega arith,
    prev_known.1,
    subst (λ k. Indexed k sent) (omega arith) sent-Indexed,
    sent_at,
  )

  request_whole : request.prev_log_index + length request.entries ≡ last_index n.log
  unfolding request sent next
  request_whole = rw (slice_lem n.log next (last_index n.log + 1) above) (
      omega (
        arith,
        length-take (last_index n.log + 1 - next)
            (drop (next - n.log.snap_index - 1) n.log.entries),
        length-drop (next - n.log.snap_index - 1) n.log.entries,
        last_index_lem n.log w,
      ))

  -- The request is of the leader's term and goes to the end of its log.
  pub prepare_append-whole :
      (args : AppendEntriesArgs)
      → prepare_append n peer ≡ append_entries args
      → (args.term ≡ n.current_term)
        × (args.prev_log_index + length args.entries ≡ last_index n.log)
  unfolding request
  prepare_append-whole args e =
      subst
        (λ a. (a.term ≡ n.current_term) × (a.prev_log_index + length a.entries ≡ last_index n.log))
        (same_request request args (sym prepared ∙ e)) (refl, request_whole)

  -- The new entries follow the one before the next index.
  pub prepare_append-previous :
      (args : AppendEntriesArgs)
      → prepare_append n peer ≡ append_entries args
      → args.prev_log_index + 1 ≡ lookup_or 0 peer n.next_index
  unfolding request next
  prepare_append-previous args e =
      subst (λ a. a.prev_log_index + 1 ≡ lookup_or 0 peer n.next_index)
        (same_request request args (sym prepared ∙ e)) (omega arith)

  accepted_request :
      (f : Node)
      → IsWellFormed f.log
      → f.log.snap_index < next
      → (handle_append_entries f request).1.success ≡ true
      → (j : ℕ) → next ≤ j
      → j ≤ last_index n.log
      → term (handle_append_entries f request).0.log j ≡ term n.log j
  unfolding request next
  accepted_request f fw under done j lo hi =
      let (e, found, known) = sent_at j lo hi in
      let taken =
        (accepted_lem f request fw
            (record {
              above_snapshot = omega arith;
              numbered = subst (λ k. Indexed k sent) (omega arith) sent-Indexed;
            })
            done).merged.taken
          (j - next) found in
      ap (term (handle_append_entries f request).0.log) (omega arith) ∙ taken ∙ sym known

  -- A leader with a well-formed log sends what a peer misses from its next index on, which the
  -- leader has not compacted. A peer with a well-formed log that is compacted below that index,
  -- and that accepts the request, has the leader's term at every index from there to the end of
  -- the leader's log.
  pub accepted_matches_leader :
      (f : Node) (args : AppendEntriesArgs)
      → prepare_append n peer ≡ append_entries args
      → IsWellFormed f.log
      → f.log.snap_index < lookup_or 0 peer n.next_index
      → (handle_append_entries f args).1.success ≡ true
      → (j : ℕ) → lookup_or 0 peer n.next_index ≤ j
      → j ≤ last_index n.log
      → term (handle_append_entries f args).0.log j ≡ term n.log j
  unfolding request next
  accepted_matches_leader f args e fw under done j lo hi =
      subst
        (λ a.
          (handle_append_entries f a).1.success ≡ true
          → term (handle_append_entries f a).0.log j ≡ term n.log j)
        (same_request request args (sym prepared ∙ e)) (λ d. accepted_request f fw under d j lo hi)
        done
