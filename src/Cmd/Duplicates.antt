-- ===== src/Cmd/Duplicates.antt =====
-- The table of processed commands in core/src/cmd.rs.
use peer_to_peer_chat_system.Prelude.{
  ℕ, ◌≡◌, ◌+◌, ◌<◌, ◌==◌, Bool, true, none, some, ◌&&◌, ◌||◌, arith, ltb, u64_mod,
}
use peer_to_peer_chat_system.Prelude.Text.{Text, text_eq, text_eq_iff}
use peer_to_peer_chat_system.Prelude.Decimal.{dashed-injective}
use peer_to_peer_chat_system.Util.TtlMap.{State, purge_expired_keys}
use peer_to_peer_chat_system.Util.TtlMap.Invariant.{IsValid}
use peer_to_peer_chat_system.Util.TtlMap.Lookup.{get-set, get-purge-set}
use peer_to_peer_chat_system.Cmd.{
  Command, origin, processed_key, check_duplicate, set_processed, lifetime,
}

processed_key-injective :
    (s t : Text) (m n : ℕ) → processed_key s m ≡ processed_key t n → (s ≡ t) × (m ≡ n)
unfolding processed_key
processed_key-injective = dashed-injective

pub set_processed-none :
    (now : ℕ) (c : Command) (st : State Bool) → origin c ≡ none → set_processed now c st ≡ st
unfolding set_processed
set_processed-none now c st h = rw h

-- Commands with the same source and sequence number are duplicates in the same tables.
pub check_duplicate_same :
    (c d : Command) (o p : Text × ℕ) (st : State Bool)
    → origin c ≡ some o
    → origin d ≡ some p
    → (text_eq o.0 p.0 && o.1 == p.1) ≡ true
    → check_duplicate c st ≡ check_duplicate d st
unfolding check_duplicate
check_duplicate_same c d o p st hc hd h =
    let s : o.0 ≡ p.0 = ground (arith, text_eq_iff o.0 p.0) in
    let q : o.1 ≡ p.1 = ground (arith, text_eq_iff o.0 p.0) in rw (hc, hd) (rw (s, q))

-- Once a command is marked, exactly the commands with the same source and sequence number are
-- duplicates, beside those that were before.
pub check_duplicate-set_processed :
    (now : ℕ) (c d : Command) (o p : Text × ℕ) (st : State Bool)
    → origin c ≡ some o
    → origin d ≡ some p
    → check_duplicate d (set_processed now c st)
      ≡ (text_eq o.0 p.0 && o.1 == p.1 || check_duplicate d st)
unfolding check_duplicate set_processed
check_duplicate-set_processed now c d o p st ho hp =
    rw (ho, hp)
      (rw get-set (
        ground (
          arith,
          text_eq_iff (processed_key o.0 o.1) (processed_key p.0 p.1),
          text_eq_iff o.0 p.0,
          processed_key-injective o.0 p.0 o.1 p.1,
        )))

-- A command that is marked at `now` is a duplicate after a purge at `t` exactly while 30 seconds
-- have not passed, if the table is valid and its ids have not run out.
pub check_duplicate-purge :
    (now t : ℕ) (c : Command) (o : Text × ℕ) (st : State Bool)
    → origin c ≡ some o
    → IsValid st
    → st.next_id + 1 < u64_mod
    → check_duplicate c (purge_expired_keys t (set_processed now c st)).0 ≡ ltb t (now + lifetime)
unfolding check_duplicate set_processed
check_duplicate-purge now t c o st ho h b = rw ho (rw get-purge-set (ground arith))
