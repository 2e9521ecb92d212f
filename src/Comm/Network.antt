-- ===== src/Comm/Network.antt =====
-- The server side as a whole: clients, the proxy of Comm/Proxy, and the threads of
-- core/SharedCode/CommWorker. ZeroMQ's sockets are a parameter, with what its guide says of them.

use fluffi.Base.{
  ◌≡◌, ◌≢◌, true, false, Option, none, some, List, [], ◌∷◌, ◌++◌, Text, contains, text_instance,
}
use fluffi.Comm.Proxy.{Frames, ready, active, Proxy, Poll, Turn, proxy_turn}

-- A ROUTER socket puts the peer's identity in front of what it receives and takes it off what it
-- sends; a REQ socket puts an empty frame in front of what it sends and takes it off what it receives.
pub record Sockets : Type 0 where
  pub router_recv : Text → Frames → Frames
  pub router_send : Frames → Option (Text × Frames)
  pub req_send : Frames → Frames
  pub req_recv : Frames → Option Frames
  pub router_recv_lem : (peer : Text) (f : Frames) → router_recv peer f ≡ peer ∷ f
  pub router_send_lem : (peer : Text) (f : Frames) → router_send (peer ∷ f) ≡ some (peer, f)
  pub req_send_lem : (f : Frames) → req_send f ≡ [] ∷ f
  pub req_recv_lem : (f : Frames) → req_recv ([] ∷ f) ≡ some f

-- The messages that wait at the proxy's sockets and at the workers, and the workers that started.
pub record Network : Type 0 where
  pub proxy : Proxy
  pub frontend : List Frames
  pub backend : List Frames
  pub mail : List (Text × Frames)
  pub workers : List Text

-- What the clients see.
pub data Label : Type 0 where
  silent : Label
  asked : Text → Text → Label
  answered : Text → Text → Label

-- A message that a worker has handled: its last frame was the request, and the response takes its
-- place.
unfoldable pub respond_after : Text → Option Frames → Option Frames
respond_after frame none = none
respond_after frame (some rest) = some (frame ∷ rest)

unfoldable pub respond : Text → Frames → Option Frames
unfolding respond_after
respond response [] = none
respond response (request ∷ []) = some (response ∷ [])
respond response (frame ∷ (next ∷ rest)) = respond_after frame (respond response (next ∷ rest))

unfoldable pub last_frame : Frames → Option Text
last_frame [] = none
last_frame (request ∷ []) = some request
last_frame (frame ∷ (next ∷ rest)) = last_frame (next ∷ rest)

-- What is sent to no identity is dropped.
unfoldable pub routed : Option (Text × Frames) → List (Text × Frames)
routed none = []
routed (some m) = m ∷ []

module _ (z : Sockets) where
  unfoldable pub deliver : Option Frames → List (Text × Frames)
  unfolding routed
  deliver none = []
  deliver (some f) = routed (z.router_send f)

  unfoldable pub client_sees : Text → Option Frames → Label
  client_sees client (some (answer ∷ [])) = answered client answer
  client_sees client _ = silent

  unfoldable pub reply_routed : Option (Text × Frames) → Label
  unfolding client_sees
  reply_routed none = silent
  reply_routed (some (client, f)) = client_sees client (z.req_recv f)

  unfoldable pub reply_label : Option Frames → Label
  unfolding reply_routed
  reply_label none = silent
  reply_label (some f) = reply_routed (z.router_send f)

  abbrev pub after_turn : Network → Turn → Network
  after_turn s u = record {
    proxy = u.proxy;
    frontend = u.frontend;
    backend = u.backend;
    mail = s.mail ++ deliver u.to_backend;
    workers = s.workers;
  }

  -- `Answers request response`: a handler may answer the request so. A client asks on a REQ socket
  -- and has no identity that reads READY; a worker's identity is its number, and unused before.
  pub data Step (Answers : Text → Text → Type 0) (s : Network) (l : Label) (t : Network)
      : Type 0 where
    ask :
        (client request : Text)
        → client ≢ ready
        → l ≡ asked client request
        → t ≡ record s {
          frontend = s.frontend ++ z.router_recv client (z.req_send (request ∷ [])) ∷ [];
        }
        → Step Answers s l t
    start :
        (worker : Text)
        → contains worker s.workers ≡ false
        → l ≡ silent
        → t ≡ record s {
          workers = worker ∷ s.workers;
          backend = s.backend ++ z.router_recv worker (z.req_send (ready ∷ [])) ∷ [];
        }
        → Step Answers s l t
    serve :
        (before after : List (Text × Frames)) (worker : Text) (wire message reply : Frames)
        (request response : Text)
        → contains worker s.workers ≡ true
        → s.mail ≡ before ++ (worker, wire) ∷ after
        → z.req_recv wire ≡ some message
        → last_frame message ≡ some request
        → Answers request response
        → respond response message ≡ some reply
        → l ≡ silent
        → t ≡ record s {
          mail = before ++ after;
          backend = s.backend ++ z.router_recv worker (z.req_send reply) ∷ [];
        }
        → Step Answers s l t
    turn :
        (p : Poll) (u : Turn)
        → proxy_turn p s.proxy s.backend s.frontend ≡ some u
        → l ≡ reply_label u.to_frontend
        → t ≡ after_turn s u
        → Step Answers s l t

  pub data Run (Answers : Text → Text → Type 0) (s : Network) : List Label → Network → Type 0 where
    rest : Run Answers s [] s
    step :
        {t u : Network} {ls : List Label} {l : Label}
        → Run Answers s ls t
        → Step Answers t l u
        → Run Answers s (l ∷ ls) u

abbrev pub started : Network
started = record {
  proxy = record { state = active; worker_queue = [] };
  frontend = [];
  backend = [];
  mail = [];
  workers = [];
}
