-- ===== src/Network/Relay.antt =====
-- `nodeRelayFactory` of packages/agent/src/runtime/relay.ts: the sockets of one relay. Bytes go
-- through `pipe` both ways and are left out.
pub mod Sockets
use firemig.Prelude.{ℕ, ◌+◌, ◌<◌, ◌≡◌, Bool, true, false, ◌||◌, ◌==◌, if◌then◌else◌}

-- The two sockets of a connection.
pub data Socket : Type 0 where
  client upstream : ℕ → Socket

-- `sockets` is the set of the live ones; `destroyed` says on which `destroy` was called.
pub record Relay : Type 0 where
  pub accepted : ℕ
  pub sockets : Socket → Bool
  pub destroyed : Socket → Bool
  pub listening : Bool

abbrev pub new_relay : Relay
new_relay = record { accepted = 0; sockets = λ s. false; destroyed = λ s. false; listening = true }

abbrev pub connection_of : Socket → ℕ
connection_of (client i) = i
connection_of (upstream i) = i

-- The handler of `createServer`.
unfoldable pub accept_connection : Relay → Relay
accept_connection r = record r {
  accepted = r.accepted + 1;
  sockets = λ s. connection_of s == r.accepted || r.sockets s;
}

-- `closeBoth`, on an error or the end of either socket.
unfoldable pub close_both : ℕ → Relay → Relay
close_both i r = record r {
  sockets = λ s. if connection_of s == i then false else r.sockets s;
  destroyed = λ s. connection_of s == i || r.destroyed s;
}

-- `close` of NodeRelayHandle.
unfoldable pub close_relay : Relay → Relay
close_relay r = record r {
  sockets = λ s. false;
  destroyed = λ s. r.sockets s || r.destroyed s;
  listening = false;
}

-- What may happen next to a relay. A socket may report more than one event.
pub data Step : Relay → Relay → Type 0 where
  accepts : (r : Relay) → r.listening ≡ true → Step r (accept_connection r)
  ends :
      (s : Socket) (r : Relay)
      → connection_of s < r.accepted
      → Step r (close_both (connection_of s) r)
  closes : (r : Relay) → Step r (close_relay r)

pub data Reach : Relay → Type 0 where
  here : Reach new_relay
  next : {r r' : Relay} → Reach r → Step r r' → Reach r'
