-- ===== src/Comm/Proxy.antt =====
-- core/SharedCode/CommProxyWorker: the proxy between the server socket, at which clients ask, and the
-- workers. A message is the list of its frames. workerMain gives the proxy two sockets that differ.
use fluffi.Base.{
  Bool, true, false, not, ◌&&◌, Option, none, some, List, [], ◌∷◌, ◌++◌, if◌then◌else◌, Text, codes,
  text_eq,
}

abbrev pub Frames : Type 0
Frames = List Text

abbrev pub ready : Text
ready = codes "READY"

pub data Phase : Type 0 where
  active paused terminated : Phase

pub record Proxy : Type 0 where
  pub state : Phase
  pub worker_queue : List Text

unfoldable pub is_active : Phase → Bool
is_active active = true
is_active paused = false
is_active terminated = false

-- What the polls and the control socket of a turn yield: a message can be reported as readable only
-- where one waits.
pub record Poll : Type 0 where
  pub control : Option Text
  pub backend_in : Bool
  pub frontend_out : Bool
  pub frontend_in : Bool
  pub backend_out : Bool

-- The proxy with the messages that wait at its two sockets and those that the turn has sent.
pub record Turn : Type 0 where
  pub proxy : Proxy
  pub backend : List Frames
  pub frontend : List Frames
  pub to_frontend : Option Frames
  pub to_backend : Option Frames

-- The address, and the message without it; nothing is the exception for a message of no frames.
unfoldable pub unwrap : Frames → Option (Text × Frames)
unwrap [] = none
unwrap (address ∷ []) = some (address, [])
unwrap (address ∷ ([] ∷ frames)) = some (address, frames)
unwrap (address ∷ ((c ∷ cs) ∷ frames)) = some (address, (c ∷ cs) ∷ frames)

unfoldable pub wrap : Text → Option Text → Frames → Frames
wrap address none frames = address ∷ frames
wrap address (some delim) frames = address ∷ (delim ∷ frames)

-- A control command; nothing stands for the end of the process.
unfoldable pub process_control : Option Text → Phase → Option Phase
process_control none p = some p
process_control (some msg) p =
    if text_eq msg (codes "PAUSE")
    then some paused
    else if text_eq msg (codes "RESUME")
    then some active
    else if text_eq msg (codes "TERMINATE")
    then some terminated
    else none

-- A reply without its address; there is no frame to look at where it is empty.
unfoldable pub take_reply : Text × Frames → Turn → Option Turn
take_reply (address, []) t = none
take_reply (address, frame ∷ frames) t =
    let q = t.proxy.worker_queue ++ address ∷ [] in
    let p : Proxy = record { state = t.proxy.state; worker_queue = q } in
    if not (text_eq frame ready)
    then some (record t { proxy = p; to_frontend = some (frame ∷ frames) })
    else some (record t { proxy = p })

unfoldable pub unwrap_reply : Option (Text × Frames) → Turn → Option Turn
unfolding take_reply
unwrap_reply none t = none
unwrap_reply (some reply) t = take_reply reply t

-- A reply is received where the poll reported one: the flag comes with the messages that wait.
unfoldable pub receive_reply : List Frames → Turn → Option Turn
unfolding unwrap unwrap_reply
receive_reply [] t = some t
receive_reply (message ∷ rest) t = unwrap_reply (unwrap message) (record t { backend = rest })

unfoldable pub process_reply : Poll → Turn → Option Turn
unfolding receive_reply is_active
process_reply p t =
    if is_active t.proxy.state && (p.backend_in && p.frontend_out)
    then receive_reply t.backend t
    else some t

unfoldable pub forward_request : List Text → List Frames → Turn → Turn
unfolding wrap
forward_request [] requests t = t
forward_request (worker ∷ workers) [] t = t
forward_request (worker ∷ workers) (message ∷ rest) t = record t {
  proxy = record { state = t.proxy.state; worker_queue = workers };
  frontend = rest;
  to_backend = some (wrap worker (some []) message);
}

unfoldable pub process_request : Poll → Turn → Turn
unfolding forward_request is_active
process_request p t =
    if is_active t.proxy.state && (p.frontend_in && p.backend_out)
    then forward_request t.proxy.worker_queue t.frontend t
    else t

unfoldable pub then_request : Poll → Option Turn → Option Turn
unfolding process_request
then_request p none = none
then_request p (some t) = some (process_request p t)

unfoldable pub process_messages : Poll → Turn → Option Phase → Option Turn
unfolding process_reply then_request
process_messages p t none = none
process_messages p t (some phase) =
    let proxy : Proxy = record { state = phase; worker_queue = t.proxy.worker_queue } in
    then_request p (process_reply p (record t { proxy = proxy }))

-- The body of the loop, for the messages that wait at the backend and at the frontend.
unfoldable pub proxy_turn : Poll → Proxy → List Frames → List Frames → Option Turn
unfolding process_control process_messages
proxy_turn p proxy backend frontend =
    process_messages p
      (record {
        proxy = proxy;
        backend = backend;
        frontend = frontend;
        to_frontend = none;
        to_backend = none;
      })
      (process_control p.control proxy.state)
