-- ===== src/Network/Relay/Sockets.antt =====
-- packages/agent/src/runtime/relay.ts: no socket of a relay is lost.
use firemig.Prelude.{ℕ, ◌≡◌, refl, false, not, ◌&&◌, ltb, arith}
use firemig.Network.Relay.{
  Socket, client, upstream, Relay, connection_of, accept_connection, close_both, close_relay, Step,
  accepts, ends, closes, Reach, here, next,
}

-- A socket was destroyed exactly if its connection was accepted and it is not in the set; only
-- sockets of accepted connections are in the set, both or neither, and none once the relay is closed.
pub record Kept (r : Relay) : Type 0 where
  pub either :
      (s : Socket) → r.destroyed s ≡ (ltb (connection_of s) r.accepted && not (r.sockets s))
  pub known : (s : Socket) → (r.sockets s && not (ltb (connection_of s) r.accepted)) ≡ false
  pub paired : (i : ℕ) → r.sockets (client i) ≡ r.sockets (upstream i)
  pub silent : (s : Socket) → (r.sockets s && not r.listening) ≡ false

Step-Kept : {r r' : Relay} → Step r r' → Kept r → Kept r'
unfolding accept_connection close_both close_relay
Step-Kept (accepts r open_now) k = record {
  either = λ s. ground (arith, k.either s, k.known s);
  known = λ s. ground (arith, k.known s);
  paired = λ i. ground (arith, k.paired i);
  silent = λ s. ground (arith, open_now);
}
Step-Kept (ends t r below) k = record {
  either = λ s. ground (arith, k.either s, below);
  known = λ s. ground (arith, k.known s);
  paired = λ i. ground (arith, k.paired i);
  silent = λ s. ground (arith, k.silent s);
}
Step-Kept (closes r) k = record {
  either = λ s. ground (arith, k.either s, k.known s);
  known = λ s. refl;
  paired = λ i. refl;
  silent = λ s. refl;
}

-- Whatever happens to a new relay, a socket was destroyed exactly if its connection was accepted and
-- it is not live any more; the two sockets of a connection are live, or neither is; only those of
-- accepted connections are live, and none once the relay was closed.
pub reached-Kept : {r : Relay} → Reach r → Kept r
reached-Kept here = record {
  either = λ s. ground arith;
  known = λ s. refl;
  paired = λ i. refl;
  silent = λ s. refl;
}
reached-Kept (next run step) = Step-Kept step (reached-Kept run)
