-- ===== src/Tracker/Connections.antt =====
-- core/src/tracker.rs: `Tracker::handle_connection`, from the first register command to the end of
-- the stream.
use peer_to_peer_chat_system.Prelude.{
  ℕ, ◌≡◌, refl, sym, ap, ◌∙◌, Bool, true, false, Option, none, some, List, [], ◌∷◌, ◌++◌, length,
  arith,
}
use peer_to_peer_chat_system.Prelude.Text.{Text, text_eq_iff}
use peer_to_peer_chat_system.Frame.{Frame}
use peer_to_peer_chat_system.Result.{Result, ok, err, io}
use peer_to_peer_chat_system.Util.TtlMap
use peer_to_peer_chat_system.Util.TtlMap.Lookup.{remove-get}
use peer_to_peer_chat_system.Connection
use peer_to_peer_chat_system.Connection.{Read, frame, failed}
use peer_to_peer_chat_system.Cmd.{Command, register, from_frame}
use peer_to_peer_chat_system.Cmd.Register.{Register}
use peer_to_peer_chat_system.Tracker.{
  SocketAddr, Tracker, Known, process_frame, reply, apply_known, apply_at, apply_register,
}

module _ (addrs : SocketAddr) where
  -- What comes from outside while one frame is handled.
  pub record Round : Type 0 where
    pub now : ℕ
    pub choose : TtlMap.State addrs.Addr → Known addrs
    pub write_ok : Bool

  abbrev pub Outcome : Type 0
  Outcome = Result (Unit {0}) × Tracker addrs

  unfoldable pub apply_in : Round → Register → Tracker addrs → Outcome
  apply_in env c t = apply_register addrs env.choose env.write_ok env.now c t

  -- The `match` of the loop.
  unfoldable pub handle_later : Round → Result Command → Tracker addrs → Outcome
  unfolding apply_in
  handle_later env (ok (register c)) t = apply_in env c t
  handle_later env (ok c) t = (ok tt, t)
  handle_later env (err e) t = (err e, t)

  abbrev pub after : Outcome → (Tracker addrs → Outcome) → Outcome
  after (ok _, t) f = f t
  after (err e, t) f = (err e, t)

  abbrev pub unread : List Read → Tracker addrs → Tracker addrs
  unread l t = record t { connection = record t.connection { incoming = l } }

  -- `while let Ok(Some(frame))` on what is left of the stream; a failed read ends the loop as the end
  -- of the stream does. A round is numbered by what is left behind its frame.
  unfoldable pub serve : (ℕ → Round) → List Read → Tracker addrs → Outcome
  serve envs [] t = (ok tt, unread [] t)
  serve envs (failed ∷ rest) t = (ok tt, unread rest t)
  serve envs (frame f ∷ rest) t =
      after (handle_later (envs (length rest)) (from_frame f) (unread rest t)) (serve envs rest)

  unfoldable pub forget : Text → Tracker addrs → Outcome
  forget peer_name t = (ok tt, record t { peers = (TtlMap.remove peer_name t.peers).1 })

  unfoldable pub handle_first : (ℕ → Round) → List Read → Result Register → Tracker addrs → Outcome
  unfolding apply_in serve forget
  handle_first envs rest (err e) t = (err e, t)
  handle_first envs rest (ok c) t =
      after (after (apply_in (envs (length rest)) c t) (serve envs rest)) (forget c.peer_name)

  -- `handle_connection` on a stream, where `none` is the panic on one that ends at once.
  unfoldable pub handle_stream : (ℕ → Round) → List Read → Tracker addrs → Option Outcome
  unfolding handle_first
  handle_stream envs [] t = none
  handle_stream envs (failed ∷ rest) t = some (err io, unread rest t)
  handle_stream envs (frame f ∷ rest) t =
      some (handle_first envs rest (process_frame f) (unread rest t))

  after-forget :
      (o : Outcome) (name : Text)
      → (after o (forget name)).0 ≡ ok tt
      → TtlMap.get name (after o (forget name)).1.peers ≡ none
  unfolding forget
  after-forget (ok u, t) name h =
      (remove-get name name t.peers).1 ∙ ground (arith, text_eq_iff name name)
  after-forget (err e, t) name h = cc

  -- Where the connection of a peer ends without an error, the name that it first registered is not
  -- known any more.
  pub handle_stream_forgets :
      (envs : ℕ → Round) (f : Frame) (rest : List Read) (c : Register) (t t' : Tracker addrs)
      → process_frame f ≡ ok c
      → handle_stream envs (frame f ∷ rest) t ≡ some (ok tt, t')
      → TtlMap.get c.peer_name t'.peers ≡ none
  unfolding handle_stream handle_first
  handle_stream_forgets envs f rest c t t' p h =
      let o = after (apply_in (envs (length rest)) c (unread rest t)) (serve envs rest) in
      let e : after o (forget c.peer_name) ≡ (ok tt, t') = cc in
      ap (λ (x : Outcome). TtlMap.get c.peer_name x.1.peers) (sym e)
      ∙ after-forget o c.peer_name (ap (λ (x : Outcome). x.0) e)

  after-ok : (o : Outcome) (f : Tracker addrs → Outcome) → o.0 ≡ ok tt → after o f ≡ f o.1
  after-ok (ok u, t) f h = refl
  after-ok (err e, t) f h = cc

  apply_in-refused :
      (env : Round) (c : Register) (t : Tracker addrs) (k a : addrs.Addr)
      → TtlMap.get c.peer_name t.peers ≡ some k
      → addrs.parse (c.ip_address ++ b':' ∷ c.port) ≡ some a
      → addrs.same k a ≡ false
      → env.write_ok ≡ true
      → (apply_in env c t).0 ≡ ok tt
  unfolding apply_in apply_register apply_at apply_known reply Connection.write_frame
  apply_in-refused env c t k a g p d w = rw (p, g, d, w) refl

  -- A peer that is refused, because another one is known under its name at a different address, and
  -- then leaves, takes the other one's name away.
  pub handle_stream-refused :
      (envs : ℕ → Round) (f : Frame) (c : Register) (t : Tracker addrs) (k a : addrs.Addr)
      → process_frame f ≡ ok c
      → TtlMap.get c.peer_name t.peers ≡ some k
      → addrs.parse (c.ip_address ++ b':' ∷ c.port) ≡ some a
      → addrs.same k a ≡ false
      → (envs 0).write_ok ≡ true
      → (t' : Tracker addrs) × (handle_stream envs (frame f ∷ []) t ≡ some (ok tt, t'))
        × (TtlMap.get c.peer_name t'.peers ≡ none)
  unfolding handle_stream handle_first serve forget
  handle_stream-refused envs f c t k a p g q d w =
      let answered = apply_in (envs 0) c (unread [] t) in
      let returned = apply_in-refused (envs 0) c (unread [] t) k a g q d w in
      (
        (forget c.peer_name (unread [] answered.1)).1,
        rw p (
            ap (λ (x : Outcome). some (after x (forget c.peer_name)))
              (after-ok answered (serve envs []) returned)),
        (remove-get c.peer_name c.peer_name answered.1.peers).1
            ∙ ground (arith, text_eq_iff c.peer_name c.peer_name),
      )
