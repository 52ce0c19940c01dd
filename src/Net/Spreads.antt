-- ===== src/Net/Spreads.antt =====
-- The invariant of a network in which a command spreads, and that a delivery keeps it.
use peer_to_peer_chat_system.Prelude.{
  ℕ, ◌≡◌, ◌⊎◌, inl, inr, refl, sym, ap, ◌∙◌, true, false, some, List, ◌∷◌, Bool-cases,
}
use peer_to_peer_chat_system.Prelude.Text.{Text, text_eq, text_eq_iff, text_eq_refl}
use peer_to_peer_chat_system.Prelude.HashMap
use peer_to_peer_chat_system.Prelude.HashMap.{HashMap}
use peer_to_peer_chat_system.Frame
use peer_to_peer_chat_system.Frame.{Frame, PeerControlMessage, ClientServerMessage}
use peer_to_peer_chat_system.Result.{ok}
use peer_to_peer_chat_system.Cmd.{Command, from_frame, origin, check_duplicate}
use peer_to_peer_chat_system.PeerMap.Distinct.{Distinct}
use peer_to_peer_chat_system.Node.{Node, Env}
use peer_to_peer_chat_system.Server.{handle_frame}
use peer_to_peer_chat_system.Net.{Network, update, send_next, deliver, InEvents}
use peer_to_peer_chat_system.Net.Pending.{Pending}
use peer_to_peer_chat_system.Net.Handle.{
  IsPublic, Follows, Follows-refl, handle_frame-Follows, handle_frame_knows,
}
use peer_to_peer_chat_system.Net.Sent.{
  get-injective, send_next-Pending, send_next-entries, send_next-others,
}

abbrev pub Knows : Command → Node → Type 0
Knows x n = check_duplicate x n.processed_commands ≡ true

-- The source, or a server to which the command is a duplicate.
abbrev pub Has : Command → Text × ℕ → Network → Text → Type 0
Has x o net a = (a ≡ o.0) ⊎ Knows x (net a)

abbrev pub Nobody : Text → Type 0
Nobody b = ⊥

module _ (m : ClientServerMessage) (x : Command) (o : Text × ℕ) (f : Frame) where
  -- Each peer but the source of a server that has the command knows it, or the frame waits for it,
  -- or it is excused; and who knows the command has told its client.
  pub record Spreads (Excused : Text → Type 0) (net : Network) : Type 0 where
    pub valid : (a : Text) → Distinct (net a).peers.entries
    pub waits :
        (a b : Text) (c : ℕ)
        → Has x o net a
        → HashMap.get b (net a).peers.entries ≡ some c
        → text_eq b o.0 ≡ false
        → Knows x (net b) ⊎ (Pending f ((net a).peers.channels c) ⊎ Excused b)
    pub told : (b : Text) → Knows x (net b) → InEvents m (net b).events

  -- What each server does keeps the invariant, if those that were excused know the command then.
  module _ (Excused : Text → Type 0) (net net' : Network)
      (follows : (d : Text) → Follows m x o f (net d) (net' d))
      (learns : (b : Text) → Excused b → Knows x (net' b)) (h : Spreads Excused net) where
    waits_old :
        (a b : Text) (c : ℕ)
        → Has x o net a
        → HashMap.get b (net' a).peers.entries ≡ some c
        → text_eq b o.0 ≡ false
        → Knows x (net' b) ⊎ (Pending f ((net' a).peers.channels c) ⊎ Nobody b)
    waits_old a b c has e apart = elim (h.waits a b c has (rw (follows a).entries at e) apart) [
      | inl known ↦ inl ((follows b).known known)
      | inr (inl pending) ↦ inr (inl ((follows a).waits c pending))
      | inr (inr excused) ↦ inl (learns b excused)
    ]

    waits_after :
        (a b : Text) (c : ℕ)
        → Has x o net' a
        → HashMap.get b (net' a).peers.entries ≡ some c
        → text_eq b o.0 ≡ false
        → Knows x (net' b) ⊎ (Pending f ((net' a).peers.channels c) ⊎ Nobody b)
    waits_after a b c (inl source) e apart = waits_old a b c (inl source) e apart
    waits_after a b c (inr known) e apart = elim ((follows a).passed known) [
      | inl old ↦ waits_old a b c (inr old) e apart
      | inr (waiting, _) ↦ inr (inl (waiting b c e apart))
    ]

    told_after : (b : Text) → Knows x (net' b) → InEvents m (net' b).events
    told_after b known = elim ((follows b).passed known) [
      | inl old ↦ (follows b).events (h.told b old)
      | inr (_, told) ↦ told
    ]

    pub Follows-Spreads : Spreads Nobody net'
    Follows-Spreads = record {
      valid = λ d. rw (follows d).entries (h.valid d);
      waits = waits_after;
      told = told_after;
    }

  module _ (pub_x : IsPublic m x o f) (a b : Text) (c : ℕ) (g : Frame)
      (rest : List PeerControlMessage) (env : Env) (net : Network)
      (e : HashMap.get b (net a).peers.entries ≡ some c)
      (q : ((net a).peers.channels c).queue ≡ Frame.frame g ∷ rest)
      (open_client : env.client_open ≡ true)
      (only : (y : Command) → from_frame g ≡ ok y → origin y ≡ some o → y ≡ x) where
    abbrev sent : Network
    sent = update a (send_next b c (net a)) net

    abbrev got : Network
    got = update b (handle_frame env b g (sent b)).1 sent

    got-Follows : (d : Text) → Follows m x o f (sent d) (got d)
    got-Follows d = elim (Bool-cases (text_eq d b)) [
      | inl t ↦
          let same : d ≡ b = (text_eq_iff d b).0 t in
          rw same (
            rw (text_eq_refl b)
              (handle_frame-Follows m x o f env b open_client pub_x (sent b) g only))
      | inr t ↦ rw t (Follows-refl m x o f (sent d))
    ]

    sent-Pending :
        (d : Text) (k : ℕ)
        → Pending f ((net d).peers.channels k)
        → Pending f ((sent d).peers.channels k) ⊎ ((d ≡ a) × (k ≡ c) × (g ≡ f))
    sent-Pending d k h = elim (Bool-cases (text_eq d a)) [
      | inl t ↦
          let same : d ≡ a = (text_eq_iff d a).0 t in
          rw same (
            rw (text_eq_refl a) (elim (send_next-Pending f g b c rest (net a) k q (rw same at h)) [
              | inl left ↦ inl left
              | inr (p, r) ↦ inr (refl, p, r)
            ]))
      | inr t ↦ inl (rw t h)
    ]

    sent-others :
        (d : Text)
        → ((sent d).processed_commands ≡ (net d).processed_commands)
          × ((sent d).events ≡ (net d).events)
          × ((sent d).peers.entries ≡ (net d).peers.entries)
    sent-others d = elim (Bool-cases (text_eq d a)) [
      | inl t ↦
          let same : d ≡ a = (text_eq_iff d a).0 t in
          let (known, events) = send_next-others f g b c rest (net a) in
          rw same (rw (text_eq_refl a) (known, events, send_next-entries f g b c rest (net a) q))
      | inr t ↦ rw t (refl, refl, refl)
    ]

    b_learns : g ≡ f → Knows x (got b)
    b_learns h =
        rw (text_eq_refl b) (rw h (handle_frame_knows m x o f env b open_client pub_x (sent b)))

    -- While the frame is on its way to `b`, `b` is excused.
    abbrev Receives : Text → Type 0
    Receives j = (j ≡ b) × (g ≡ f)

    knew : (d : Text) → Knows x (sent d) → Knows x (net d)
    knew d h = sym (ap (check_duplicate x) (sent-others d).0) ∙ h

    had : (d : Text) → Has x o sent d → Has x o net d
    had d (inl source) = inl source
    had d (inr known) = inr (knew d known)

    sent-waits :
        Spreads Nobody net
        → (d j : Text) (k : ℕ) → Has x o net d
        → HashMap.get j (net d).peers.entries ≡ some k
        → text_eq j o.0 ≡ false
        → Knows x (sent j) ⊎ (Pending f ((sent d).peers.channels k) ⊎ Receives j)
    sent-waits h d j k has p apart = elim (h.waits d j k has p apart) [
      | inl known ↦ inl (ap (check_duplicate x) (sent-others j).0 ∙ known)
      | inr (inl pending) ↦ elim (sent-Pending d k pending) [
        | inl left ↦ inr (inl left)
        | inr (same, here, taken) ↦
            let at_a = rw (same, here) at p in
            inr (inr (get-injective (net a).peers.entries j b c (h.valid a) at_a e, taken))
      ]
      | inr (inr nobody) ↦ absurd nobody
    ]

    sent-Spreads : Spreads Nobody net → Spreads Receives sent
    sent-Spreads h = record {
      valid = λ d. rw (sent-others d).2 (h.valid d);
      waits = λ d j k has p. sent-waits h d j k (had d has) (rw (sent-others d).2 at p);
      told = λ d known. rw (sent-others d).1 (h.told d (knew d known));
    }

    pub deliver-Spreads : Spreads Nobody net → Spreads Nobody (deliver a b c g env net)
    unfolding deliver
    deliver-Spreads h =
        Follows-Spreads Receives sent got got-Follows (λ j r. rw r.0 (b_learns r.1))
          (sent-Spreads h)
