-- ===== src/Tests/Listen.antt =====
-- The listener of core/src/server.rs on concrete inputs.
use peer_to_peer_chat_system.Prelude.{◌≡◌, refl, ◌%◌, ◌++◌, All, some, none, List, [], ◌∷◌, u64_mod}
use peer_to_peer_chat_system.Prelude.Text.{codes}
use peer_to_peer_chat_system.Connection
use peer_to_peer_chat_system.Util.Counters
use peer_to_peer_chat_system.Util.TtlMap
use peer_to_peer_chat_system.Connection.{Connection}
use peer_to_peer_chat_system.Server.Listen.{
  Listener, Action, accepts, begins, works, finishes, purges_commands, listen, act_all,
}
use peer_to_peer_chat_system.Server.Listen.Counting.{opened, act_all-counts}
use peer_to_peer_chat_system.Server.Listen.Telling.{OnceEach, IsNew, IsKnown, messages}
use peer_to_peer_chat_system.Server.Listen.Telling.Reads.{Unexpired, taken_all}
use peer_to_peer_chat_system.Server.Listen.Telling.Rounds.{act_all_tells}
use peer_to_peer_chat_system.Tests.Server.{env, node, said}

-- The same frame comes over two connections.
abbrev brings : Connection
brings = record { incoming = Connection.frame said ∷ []; written = [] }

abbrev opens : List Action
opens = accepts (some brings) ∷ accepts (some brings) ∷ begins 1 ∷ begins 0 ∷ []

abbrev reads : List Action
reads = purges_commands 5 ∷ works 0 env ∷ works 1 env ∷ works 1 env ∷ finishes 1 ∷ []

abbrev serves : Listener
serves = act_all (codes "me") opens (listen node)

counted : serves.num_incoming_conns ≡ 2
unfolding act_all listen Counters.inc
counted = refl

act_all-counts_example :
    let l =
      act_all (codes "me") (accepts (some brings) ∷ begins 0 ∷ accepts none ∷ []) (listen node) in
    l.num_incoming_conns ≡ opened l.accepted l.tasks % u64_mod
act_all-counts_example =
    act_all-counts (codes "me") node (accepts (some brings) ∷ begins 0 ∷ accepts none ∷ [])

reads-Unexpired : Unexpired (codes "me") reads serves
unfolding TtlMap.purge_expired_keys act_all listen TtlMap.new
reads-Unexpired = (λ k. refl, tt)

act_all_tells_example :
    let t = taken_all (codes "me") reads serves in
    let m = (act_all (codes "me") reads serves).shared in
    OnceEach t
    × All (IsNew serves.shared) t
    × All (IsKnown m) t
    × (m.events ≡ serves.shared.events ++ messages (codes "me") t)
act_all_tells_example =
    act_all_tells (codes "me") reads serves (refl, (refl, (refl, tt))) reads-Unexpired
