-- ===== src/Tests/Network.antt =====
-- A client that asks once, and a worker that Echoes the request.
use fluffi.Base.{
  ◌≡◌, ◌≢◌, ◌↔◌, refl, ap, length, true, Option, none, some, List, [], ◌∷◌, ◌++◌, Text, codes,
  contains, text_eq, text_instance, bag, arith,
}
use fluffi.Comm.Proxy.{Frames, ready, Poll, proxy_turn}
use fluffi.Comm.Network.{
  Sockets, Network, Label, silent, asked, ask, start, turn, Run, rest, step, started, reply_label,
  deliver,
}
use fluffi.Comm.Protocol.{Protocol, encode, open_requests, IsPlaced, Served}
use fluffi.Comm.Refinement.{run-Served}
use fluffi.Comm.Progress.{run-drains}
use fluffi.Comm.Commands.{IsUnknown, run-IsUnknown}

open_envelope : Frames → Option Frames
open_envelope ([] ∷ f) = some f
open_envelope _ = none

route : Frames → Option (Text × Frames)
route [] = none
route (peer ∷ f) = some (peer, f)

route_lem : (peer : Text) (f : Frames) → route (peer ∷ f) ≡ some (peer, f)
unfolding route
route_lem peer f = refl

open_envelope_lem : (f : Frames) → open_envelope ([] ∷ f) ≡ some f
unfolding open_envelope
open_envelope_lem f = refl

abbrev plain : Sockets
unfolding route open_envelope
plain = record {
  router_recv = ◌∷◌;
  router_send = route;
  req_send = ◌∷◌ [];
  req_recv = open_envelope;
  router_recv_lem = λ peer f. refl;
  router_send_lem = route_lem;
  req_send_lem = λ f. refl;
  req_recv_lem = open_envelope_lem;
}

abbrev Echoes : Text → Text → Type 0
Echoes request response = response ≡ request

abbrev bob : Text
bob = codes "bob"

abbrev hi : Text
hi = codes "hi"

abbrev worker : Text
worker = codes "0"

not_ready : bob ≢ ready
not_ready e = omega (arith, ap length e)

abbrev all_ready : Poll
all_ready = record {
  control = none;
  backend_in = true;
  frontend_out = true;
  frontend_in = true;
  backend_out = true;
}

abbrev request_there : Network
request_there = record started { frontend = (bob ∷ [] ∷ hi ∷ []) ∷ [] }

abbrev worker_there : Network
worker_there = record request_there {
  workers = worker ∷ [];
  backend = (worker ∷ [] ∷ ready ∷ []) ∷ [];
}

abbrev forwarded : Network
forwarded = record started { workers = worker ∷ []; mail = (worker, [] ∷ bob ∷ [] ∷ hi ∷ []) ∷ [] }

asked_run : Run plain Echoes started (asked bob hi ∷ []) request_there
unfolding plain
asked_run = step rest (ask bob hi not_ready refl refl)

started_run : Run plain Echoes started (silent ∷ asked bob hi ∷ []) worker_there
unfolding contains plain
started_run = step asked_run (start worker refl refl refl)

forwarded_run : Run plain Echoes started (silent ∷ silent ∷ asked bob hi ∷ []) forwarded
unfolding proxy_turn text_eq reply_label deliver route plain
forwarded_run = step started_run (
    turn all_ready
      (record {
        proxy = forwarded.proxy;
        backend = [];
        frontend = [];
        to_frontend = none;
        to_backend = some (worker ∷ [] ∷ bob ∷ [] ∷ hi ∷ []);
      })
      refl refl refl)

run-Served_example :
    (m : Protocol Echoes) × (forwarded ≡ encode m)
    × IsPlaced m
    × Served Echoes (bag []) (silent ∷ silent ∷ asked bob hi ∷ []) (bag (open_requests m))
run-Served_example = run-Served plain forwarded_run

has_worker : forwarded.workers ≢ []
has_worker e = cc e

run-drains_example :
    (u : Network) × (ks : List Label) × Run plain Echoes forwarded ks u
    × Served Echoes (bag []) (ks ++ silent ∷ silent ∷ asked bob hi ∷ []) (bag [])
run-drains_example = run-drains plain (λ r. (r, refl)) forwarded_run refl has_worker

run-IsUnknown_example :
    (proxy_turn all_ready forwarded.proxy forwarded.backend forwarded.frontend ≡ none)
    ↔ IsUnknown none
run-IsUnknown_example =
    run-IsUnknown plain Echoes forwarded (silent ∷ silent ∷ asked bob hi ∷ []) forwarded_run
      all_ready
