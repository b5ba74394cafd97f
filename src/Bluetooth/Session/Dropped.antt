-- ===== src/Bluetooth/Session/Dropped.antt =====
-- Letting the peer go: what is left, and what can still be sent.
use toothkey.Base.{
  ℕ, ◌≡◌, refl, Bool, true, false, not, ◌&&◌, ◌||◌, Option, none, some, List, arith, Bool-cases,
  inl, inr,
}
use toothkey.Bluetooth.Session.{
  Session, or_else, is_some_socket, drop_client, disconnect_client, pause_client, unpause_client,
  paused_device_label, stop, safe_send,
}
use toothkey.Bluetooth.Session.Accept.{IsTidy, is_socket, is_in_pair, IsWaiting}

-- A session between waits: tidy, both sockets or none, and with them if it is connected.
pub record IsSession (s : Session) : Type 0 where
  pub tidy : IsTidy s
  pub paired : is_some_socket s.control_socket ≡ is_some_socket s.interrupt_socket
  pub backed : s.connected ≡ true → is_some_socket s.control_socket ≡ true
  -- a pair that waits to be adopted is another one
  pub apart :
      (f : ℕ)
      → is_in_pair s.outbound_pending f
          && (is_socket s.control_socket f || is_socket s.interrupt_socket f)
        ≡ false

is_some_socket-none : (o : Option ℕ) → is_some_socket o ≡ false → o ≡ none
is_some_socket-none none h = refl
is_some_socket-none (some f) h = cc

-- Dropping the client of a session closes its sockets and no other, and leaves a worker that
-- waits. Whoever waits for the end of the session is told, and dropping it once more changes
-- nothing.
pub drop_client-IsWaiting :
    (s : Session)
    → IsSession s
    → IsWaiting (drop_client s)
      × ((drop_client s).disconnect_event ≡ true)
      × (drop_client (drop_client s) ≡ drop_client s)
unfolding drop_client
drop_client-IsWaiting s v =
    elim (Bool-cases (not s.connected && not (is_some_socket s.control_socket))) [
      | inl gone ↦
          let control = is_some_socket-none s.control_socket (ground arith) in
          let interrupt = is_some_socket-none s.interrupt_socket (ground (arith, v.paired)) in
          rw gone (
            record {
              tidy = v.tidy;
              disconnected = ground arith;
              no_control = control;
              no_interrupt = interrupt;
            },
            refl,
            rw gone refl,
          )
      | inr there ↦ rw there (
        record {
          tidy = λ f. ground (arith, v.tidy f, v.apart f, v.paired, v.backed);
          disconnected = refl;
          no_control = refl;
          no_interrupt = refl;
        },
        refl,
        refl,
      )
    ]

-- Nothing is queued for a peer that was dropped, disconnected or paused, or after a stop.
pub safe_send_dropped :
    (control : Bool) (bytes : List ℕ) (now : ℕ) (s : Session)
    → (safe_send control bytes (drop_client s) ≡ drop_client s)
      × (safe_send control bytes (disconnect_client now s) ≡ disconnect_client now s)
      × (safe_send control bytes (pause_client s) ≡ pause_client s)
      × (safe_send control bytes (stop s) ≡ stop s)
unfolding safe_send drop_client disconnect_client pause_client stop
safe_send_dropped control bytes now s = (ground arith, ground arith, ground arith, ground arith)

-- A pause keeps the name that the tray shows, or the address where there is no name, although the
-- session is dropped; and what the tray's unpausing leaves is a session that is neither paused nor
-- held back, whatever disconnecting came before.
pub pause_client-label :
    (now : ℕ) (s : Session)
    → (paused_device_label (pause_client s) ≡ or_else s.display_name s.mac_address)
      × ((pause_client s).paused ≡ true)
      × ((pause_client s).connected ≡ false)
      × ((unpause_client (pause_client (disconnect_client now s))).paused ≡ false)
      × ((unpause_client (pause_client (disconnect_client now s))).suppressed_until ≡ 0)
unfolding pause_client drop_client unpause_client disconnect_client
pause_client-label now s = (ground arith, ground arith, ground arith, ground arith, ground arith)
