-- ===== src/Comm/Protocol.antt =====
-- The messages of Comm/Network by what they mean: requests that wait, requests at a worker, and
-- replies that wait; and the service that the whole is to its clients, a bag of open requests.
pub mod Moves
pub mod Turns
use fluffi.Base.{
  ℕ, ◌+◌, ◌≡◌, ◌≢◌, List, [], ◌∷◌, ◌++◌, map, Text, All, Distinct, text_instance, total, Bag, bag,
  put,
}
use fluffi.Comm.Proxy.{Frames, ready, Phase, Proxy}
use fluffi.Comm.Network.{Network, Label, silent, asked, answered}

-- A client's identity and its request.
abbrev pub Request : Type 0
Request = Text × Text

pub data Note (Answers : Text → Text → Type 0) : Type 0 where
  hello : Text → Note Answers
  reply :
      (worker client request response : Text)
      → client ≢ ready
      → Answers request response
      → Note Answers

pub record Job : Type 0 where
  pub client : Text
  pub request : Text
  pub named : client ≢ ready

module _ (Answers : Text → Text → Type 0) where
  pub record Protocol : Type 0 where
    pub state : Phase
    pub idle : List Text
    pub waiting : List Job
    pub notes : List (Note Answers)
    pub jobs : List (Text × Job)
    pub workers : List Text

abbrev pub job_request : Job → Request
job_request j = (j.client, j.request)

abbrev pub job_frames : Job → Frames
job_frames j = j.client ∷ ([] ∷ (j.request ∷ []))

abbrev pub mail_of : Text × Job → Text × Frames
mail_of (w, j) = (w, [] ∷ job_frames j)

module _ {Answers : Text → Text → Type 0} where
  abbrev pub note_worker : Note Answers → Text
  note_worker (hello w) = w
  note_worker (reply w c r a n p) = w

  abbrev pub note_frames : Note Answers → Frames
  note_frames (hello w) = w ∷ ([] ∷ (ready ∷ []))
  note_frames (reply w c r a n p) = w ∷ ([] ∷ (c ∷ ([] ∷ (a ∷ []))))

  abbrev pub note_requests : Note Answers → List Request
  note_requests (hello w) = []
  note_requests (reply w c r a n p) = (c, r) ∷ []

  abbrev pub notes_requests : List (Note Answers) → List Request
  notes_requests [] = []
  notes_requests (n ∷ ns) = note_requests n ++ notes_requests ns

  abbrev pub encode : Protocol Answers → Network
  encode m = record {
    proxy = record { state = m.state; worker_queue = m.idle };
    frontend = map job_frames m.waiting;
    backend = map note_frames m.notes;
    mail = map mail_of m.jobs;
    workers = m.workers;
  }

  -- The requests with no answer yet.
  abbrev pub open_requests : Protocol Answers → List Request
  open_requests m =
      map job_request m.waiting
      ++ (map (λ (p : Text × Job). job_request p.1) m.jobs ++ notes_requests m.notes)

  -- Every worker that started is in one place: idle, at work, or in a message to the proxy.
  pub record IsPlaced (m : Protocol Answers) : Type 0 where
    pub different : Distinct m.workers
    pub placed :
        (v : Text → ℕ)
        → total v m.workers
          ≡ total v m.idle
            + (total v (map (λ (p : Text × Job). p.0) m.jobs) + total v (map note_worker m.notes))

-- The service: a request is added to the open ones, and an answer takes one of them away.
pub data Serves (Answers : Text → Text → Type 0) (b : Bag Request) (l : Label) (b' : Bag Request)
    : Type 0 where
  pause : l ≡ silent → b' ≡ b → Serves Answers b l b'
  open_request :
      (client request : Text)
      → l ≡ asked client request
      → b' ≡ put (client, request) b
      → Serves Answers b l b'
  close_request :
      (client request response : Text)
      → l ≡ answered client response
      → Answers request response
      → b ≡ put (client, request) b'
      → Serves Answers b l b'

pub data Served (Answers : Text → Text → Type 0) (b : Bag Request)
    : List Label → Bag Request → Type 0 where
  done : Served Answers b [] b
  serve_next :
      {c d : Bag Request} {ls : List Label} {l : Label}
      → Served Answers b ls c
      → Serves Answers c l d
      → Served Answers b (l ∷ ls) d
