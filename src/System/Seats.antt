-- ===== src/System/Seats.antt =====
-- What an event leaves of the connections and of the sockets' rooms.
use smartmeet_backend.Prelude.{
  ℕ, ◌≡◌, refl, sym, subst, ◌∙◌, Bool, true, Option, none, some, List, [], ◌∷◌, arith, select, All,
  Result, proceed-keeps, proceed, modify, Option-cases, Bool-cases, inl, inr,
}
use smartmeet_backend.RoomService.{
  leave_room, get_participants, host_kick_participant, host_set_participant_muted,
}
use smartmeet_backend.WebrtcService.{remove_peer_from_room}
use smartmeet_backend.SfuService.{Direction, MediaKind, list_own_producer_ids, remove_peer}
use smartmeet_backend.Sockets.State.{
  Client, Server, Event, Membership, on_db, on_sfu, broadcast_participants, emit_room, emit_others,
  emit_socket, change_signaling, leave_channel, clear_room, record_event, target_room,
}
use smartmeet_backend.Sockets.RoomEvents.{
  on_room_leave, on_host_mute_participant, on_host_kick_participant, tell_muted, evict,
  target_socket, on_chat_message, chat_with, chat_to, relay_chat, on_room_reaction, reaction_to,
}
use smartmeet_backend.Sockets.SignalingEvents.{
  Report, relay, on_webrtc_offer, on_webrtc_answer, on_webrtc_ice_candidate, on_connection_quality,
}
use smartmeet_backend.Sockets.PresenceEvents.{
  on_participant_presence, presence_for, update_presence_in, update_presence,
}
use smartmeet_backend.Sockets.SfuEvents.{
  announce_closed, cleanup_call, cleanup_in, cleanup_sfu_peer, call_id_for, on_get_rtp_capabilities,
  on_create_transport, on_connect_transport, on_produce, on_consume, on_resume_consumer,
}

-- The same connections, and of the rooms' sockets at most those that were there.
pub record Narrows (s t : Server) : Type 1 where
  pub connected : t.connected ≡ s.connected
  pub seats : (P : Membership → Type 0) → All P s.memberships → All P t.memberships

pub Narrows-refl : (s : Server) → Narrows s s
Narrows-refl s = record { connected = refl; seats = λ P h. h }

pub Narrows-trans : {s t u : Server} → Narrows s t → Narrows t u → Narrows s u
Narrows-trans n m = record {
  connected = m.connected ∙ n.connected;
  seats = λ P h. m.seats P (n.seats P h);
}

select-All :
    (P : Membership → Type 0) (q : Membership → Bool) (ms : List Membership)
    → All P ms
    → All P (select q ms)
select-All P q [] h = tt
select-All P q (m ∷ ms) h = elim (Bool-cases (q m)) [
  | inl kept ↦ rw kept (h.0, select-All P q ms h.1)
  | inr gone ↦ rw gone (select-All P q ms h.1)
]

-- The same connections and seats.
abbrev pub Quiet : Server → Server → Type 0
Quiet s t = (t.connected ≡ s.connected) × (t.memberships ≡ s.memberships)

pub Quiet-Narrows : (s t : Server) → Quiet s t → Narrows s t
Quiet-Narrows s t (c, m) = record { connected = c; seats = λ P h. subst (All P) (sym m) h }

module _ (now : ℕ) where
  pub broadcast-Quiet : (r : ℕ) (s : Server) → Quiet s (broadcast_participants now r s).1
  unfolding broadcast_participants on_db emit_room
  broadcast-Quiet r s =
      proceed-keeps (Quiet s) (on_db (get_participants r) s) _ (refl, refl) (λ a e. (refl, refl))

  announce_closed-Quiet :
      (id r : ℕ) (ps : List ℕ) (s : Server) → Quiet s (announce_closed now id r ps s)
  unfolding emit_others
  announce_closed-Quiet id r [] s = (refl, refl)
  announce_closed-Quiet id r (p ∷ ps) s = announce_closed-Quiet id r ps _

  cleanup_in-Quiet : (id : ℕ) (call : Option ℕ) (s : Server) → Quiet s (cleanup_in now id call s)
  unfolding cleanup_in cleanup_call
  cleanup_in-Quiet id none s = (refl, refl)
  cleanup_in-Quiet id (some c) s =
      announce_closed-Quiet id c (list_own_producer_ids c id s.sfu)
        (record s { sfu = remove_peer c id s.sfu })

  pub cleanup-Quiet : (id : ℕ) (s : Server) → Quiet s (cleanup_sfu_peer now id s)
  unfolding cleanup_sfu_peer
  cleanup-Quiet id s = cleanup_in-Quiet id (call_id_for id s) s

module _ (now : ℕ) (me : Client) (s : Server) where
  pub on_chat_message-Quiet :
      (saved : Option ℕ) (given : Option ℕ) (message : List ℕ)
      → Quiet s (on_chat_message saved now me given message s)
  unfolding on_chat_message chat_with chat_to relay_chat record_event emit_room
  on_chat_message-Quiet saved given message = ground arith

  pub on_room_reaction-Quiet :
      (given emoji : Option ℕ) → Quiet s (on_room_reaction now me given emoji s)
  unfolding on_room_reaction reaction_to record_event emit_room
  on_room_reaction-Quiet given emoji = ground arith

  pub on_produce-Quiet :
      (produced : Result ℕ) (t : Option ℕ) (kind : Option MediaKind)
      → Quiet s (on_produce now me produced t kind s).1
  unfolding on_produce on_sfu record_event emit_others
  on_produce-Quiet produced t kind = ground arith

  pub on_sfu-Quiet :
      (created : Result ℕ) (d : Option Direction) (done : Result (Unit {0})) (id : Option ℕ)
      (can_consume : ℕ → ℕ → Bool)
      → Quiet s (on_get_rtp_capabilities me created s).1
        × Quiet s (on_create_transport me created d s).1
        × Quiet s (on_connect_transport me done id s).1
        × Quiet s (on_consume me can_consume created id s).1
        × Quiet s (on_resume_consumer me done id s).1
  unfolding on_get_rtp_capabilities on_create_transport on_connect_transport on_consume
      on_resume_consumer on_sfu record_event
  on_sfu-Quiet created d done id can_consume =
      (ground arith, ground arith, ground arith, ground arith, ground arith)

  relay-Quiet : (r to : ℕ) (event : Event) → Quiet s (relay now me r to event s)
  unfolding relay record_event emit_socket
  relay-Quiet r to event = ground arith

  pub on_webrtc-Quiet :
      (r to payload : Option ℕ)
      → Quiet s (on_webrtc_offer now me r to payload s)
        × Quiet s (on_webrtc_answer now me r to payload s)
        × Quiet s (on_webrtc_ice_candidate now me r to payload s)
  unfolding on_webrtc_offer on_webrtc_answer on_webrtc_ice_candidate
  on_webrtc-Quiet (some r) (some to) (some p) =
      (relay-Quiet r to _, relay-Quiet r to _, relay-Quiet r to _)
  on_webrtc-Quiet none to p = ((refl, refl), (refl, refl), (refl, refl))
  on_webrtc-Quiet (some r) none p = ((refl, refl), (refl, refl), (refl, refl))
  on_webrtc-Quiet (some r) (some to) none = ((refl, refl), (refl, refl), (refl, refl))

  pub on_connection_quality-Quiet :
      (saved r : Option ℕ) (report : Report)
      → Quiet s (on_connection_quality saved now me r report s)
  unfolding on_connection_quality record_event change_signaling emit_others
  on_connection_quality-Quiet saved none report = (refl, refl)
  on_connection_quality-Quiet saved (some r) report = (refl, refl)

  pub on_participant_presence-Quiet :
      (given : Option ℕ) (m c speaking hand : Option Bool)
      → Quiet s (on_participant_presence now me given m c speaking hand s)
  unfolding on_participant_presence presence_for update_presence_in update_presence on_db
      record_event emit_others
  on_participant_presence-Quiet given m c speaking hand = ground arith

  tell_muted-Quiet : (r : ℕ) (k : Option ℕ) (t : Server) → Quiet t (tell_muted now me r k t)
  unfolding tell_muted emit_socket
  tell_muted-Quiet r none t = (refl, refl)
  tell_muted-Quiet r (some k) t = (refl, refl)

  -- A broadcast after a step that narrows.
  pub then_broadcast :
      (r : ℕ) (t : Server) → Narrows s t → Narrows s (broadcast_participants now r t).1
  then_broadcast r t n = Narrows-trans n (Quiet-Narrows t _ (broadcast-Quiet now r t))

  pub on_host_mute_participant-Narrows :
      (given target : Option ℕ) → Narrows s (on_host_mute_participant now me given target s).1
  unfolding on_host_mute_participant on_db
  on_host_mute_participant-Narrows given target =
      elim (Option-cases (target_room given me.socket_id s)) [
        | inl nowhere ↦ rw nowhere (Narrows-refl s)
        | inr (r, found) ↦ elim (Option-cases target) [
          | inl nobody ↦ rw (found, nobody) (Narrows-refl s)
          | inr (t, given_target) ↦
              rw (found, given_target)
                (proceed-keeps (Narrows s)
                  (on_db (host_set_participant_muted r me.user_id t true) s) _
                  (Quiet-Narrows s _ (refl, refl))
                  (λ p e.
                    let told = then_broadcast r _ (Quiet-Narrows s _ (tell_muted-Quiet r _ _)) in
                    proceed-keeps (Narrows s) (broadcast_participants now r _) _ told
                      (λ a q. told)))
        ]
      ]

  then_clear :
      (r : ℕ) (t : Server)
      → Narrows s t
      → Narrows s
          (proceed (broadcast_participants now r t) (λ _. modify (clear_room me.socket_id))).1
  unfolding clear_room
  then_clear r t n =
      let told = then_broadcast r t n in
      proceed-keeps (Narrows s) (broadcast_participants now r t) _ told
        (λ a q. record { connected = told.connected; seats = told.seats })

  pub on_room_leave-Narrows : (given : Option ℕ) → Narrows s (on_room_leave now me given s).1
  unfolding on_room_leave on_db change_signaling emit_others leave_channel
  on_room_leave-Narrows given = elim (Option-cases (target_room given me.socket_id s)) [
    | inl nowhere ↦ rw nowhere (Narrows-refl s)
    | inr (r, found) ↦ rw found (
        proceed-keeps (Narrows s) (on_db (leave_room now r me.user_id) s) _
          (Quiet-Narrows s _ (refl, refl))
          (λ p e.
            let (connected, seats) = cleanup-Quiet now me.socket_id (
              change_signaling (remove_peer_from_room r me.socket_id)
                (record s { db = (leave_room now r me.user_id s.db).1 })) in
            then_clear r _ (record {
              connected = connected;
              seats = λ P h. select-All P _ _ (subst (All P) (sym seats) h);
            })))
  ]

  evict-Narrows : (r : ℕ) (k : Option ℕ) (t : Server) → Narrows s t → Narrows s (evict now me r k t)
  unfolding evict emit_socket change_signaling clear_room leave_channel
  evict-Narrows r none t n = n
  evict-Narrows r (some k) t n = record {
    connected = n.connected;
    seats = λ P h. select-All P _ t.memberships (n.seats P h);
  }

  pub on_host_kick_participant-Narrows :
      (given target : Option ℕ) → Narrows s (on_host_kick_participant now me given target s).1
  unfolding on_host_kick_participant on_db emit_others
  on_host_kick_participant-Narrows given target =
      elim (Option-cases (target_room given me.socket_id s)) [
        | inl nowhere ↦ rw nowhere (Narrows-refl s)
        | inr (r, found) ↦ elim (Option-cases target) [
          | inl nobody ↦ rw (found, nobody) (Narrows-refl s)
          | inr (t, given_target) ↦
              rw (found, given_target)
                (proceed-keeps (Narrows s) (on_db (host_kick_participant now r me.user_id t) s) _
                  (Quiet-Narrows s _ (refl, refl))
                  (λ p e.
                    let gone =
                      evict-Narrows r
                        (target_socket r t
                          (record s { db = (host_kick_participant now r me.user_id t s.db).1 }))
                        (record s { db = (host_kick_participant now r me.user_id t s.db).1 })
                        (Quiet-Narrows s _ (refl, refl)) in
                    then_broadcast r _ (record { connected = gone.connected; seats = gone.seats })))
        ]
      ]
