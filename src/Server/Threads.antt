-- ===== src/Server/Threads.antt =====
-- rtmpserver.cpp, start and cleanClientThread: which threads the server still holds.
use tvie_rtmp.Base.{
  ◌≡◌, refl, sym, ap, ◌∙◌, Bool, true, false, not, ◌&&◌, List, [], ◌∷◌, ◌++◌, append-nil,
  append_assoc, if◌then◌else◌, Bool-cases, inl, inr,
}
use tvie_rtmp.Base.Int.{eq_ℤ}
use tvie_rtmp.Exception.{internal_error, ok, err, ◌>>=◌, >>=-ok, then_do}
use tvie_rtmp.Message.{minus_one}
use tvie_rtmp.Server.{
  Sockets, RtmpServer, Arrival, new_server, prepare, erase_finished, clean_client_thread,
  accept_client, accept_clients, start,
}

-- None of the calls failed.
pub record IsListening (s : Sockets) : Type 0 where
  pub socket : eq_ℤ s.socket minus_one ≡ false
  pub setsockopt : eq_ℤ s.setsockopt minus_one ≡ false
  pub bind : eq_ℤ s.bind minus_one ≡ false
  pub listen : eq_ℤ s.listen minus_one ≡ false

module _ {T : Type 0} where
  -- The elements that pass a test, in their order.
  abbrev select : (T → Bool) → List T → List T
  select p [] = []
  select p (x ∷ xs) = let rest = select p xs in if p x then x ∷ rest else rest

  -- No arrival finds the thread finished.
  abbrev kept : List (Arrival T) → T → Bool
  kept [] t = true
  kept (a ∷ later) t = not (a.finished t) && kept later t

  -- The threads of the arrivals that no later arrival finds finished.
  abbrev pub survivors : List (Arrival T) → List T
  survivors [] = []
  survivors (a ∷ later) = select (kept later) (a.thread ∷ []) ++ survivors later

  abbrev pub AllAccepted : List (Arrival T) → Type 0
  AllAccepted [] = Unit
  AllAccepted (a ∷ later) = (eq_ℤ a.client_sock minus_one ≡ false) × AllAccepted later

  select_all : (ts : List T) → select (kept []) ts ≡ ts
  select_all [] = refl
  select_all (t ∷ ts) = ap (λ l. t ∷ l) (select_all ts)

  select-append : (p : T → Bool) (xs ys : List T) → select p (xs ++ ys) ≡ select p xs ++ select p ys
  select-append p [] ys = refl
  select-append p (x ∷ xs) ys = elim (Bool-cases (p x)) [
    | inl e ↦ rw (e, select-append p xs ys) refl
    | inr e ↦ rw (e, select-append p xs ys) refl
  ]

  -- One cleaning, and those that follow.
  select-erase_finished :
      (a : Arrival T) (later : List (Arrival T)) (ts : List T)
      → select (kept later) (erase_finished a.finished ts) ≡ select (kept (a ∷ later)) ts
  unfolding erase_finished
  select-erase_finished a later [] = refl
  select-erase_finished a later (t ∷ ts) = elim (Bool-cases (a.finished t)) [
    | inl e ↦ rw e (select-erase_finished a later ts)
    | inr e ↦ rw e (rw (select-erase_finished a later ts) refl)
  ]

  accept_client_step :
      (a : Arrival T) (s : RtmpServer T)
      → eq_ℤ a.client_sock minus_one ≡ false
      → accept_client a s ≡ (
        ok tt,
        record s { client_threads = erase_finished a.finished s.client_threads ++ (a.thread ∷ []) },
      )
  unfolding accept_client clean_client_thread ◌>>=◌ then_do
  accept_client_step a s h = rw h refl

  -- Rounds of the loop of start in which accept succeeds return, and leave of the threads that were
  -- there, and of those that were started in the rounds, the ones that no later round found finished, in
  -- the order in which they were started.
  accept_clients-survivors :
      (arrivals : List (Arrival T)) (s : RtmpServer T)
      → AllAccepted arrivals
      → accept_clients arrivals s ≡ (
        ok tt,
        record s { client_threads = select (kept arrivals) s.client_threads ++ survivors arrivals },
      )
  unfolding accept_clients
  accept_clients-survivors [] s h =
      ap (λ ts. (ok tt, record s { client_threads = ts }))
        (sym (append-nil (select (kept []) s.client_threads) ∙ select_all s.client_threads))
  accept_clients-survivors (a ∷ later) s h =
      let left = erase_finished a.finished s.client_threads in
      let next : RtmpServer T = record s { client_threads = left ++ (a.thread ∷ []) } in
      >>=-ok (accept_client a) (λ _. accept_clients later) s (accept_client_step a s h.0)
      ∙ accept_clients-survivors later next h.1
      ∙ ap (λ ts. (ok tt, record s { client_threads = ts }))
          (ap (λ l. l ++ survivors later)
              (select-append (kept later) left (a.thread ∷ [])
                ∙ ap (λ l. l ++ select (kept later) (a.thread ∷ []))
                    (select-erase_finished a later s.client_threads))
            ∙ append_assoc (select (kept (a ∷ later)) s.client_threads)
                (select (kept later) (a.thread ∷ [])) (survivors later))

  accept_clients_stop :
      (arrivals : List (Arrival T)) (bad : Arrival T) (later : List (Arrival T))
      (s s' : RtmpServer T)
      → AllAccepted arrivals
      → eq_ℤ bad.client_sock minus_one ≡ true
      → accept_clients arrivals s ≡ (ok tt, s')
      → accept_clients (arrivals ++ bad ∷ later) s ≡ (err internal_error, s')
  unfolding accept_clients accept_client ◌>>=◌ then_do
  accept_clients_stop [] bad later s s' h fails e = rw fails (ap (λ r. (err internal_error, r.1)) e)
  accept_clients_stop (a ∷ more) bad later s s' h fails e =
      let next = accept_client_step a s h.0 in
      >>=-ok (accept_client a) (λ _. accept_clients (more ++ bad ∷ later)) s next
      ∙ accept_clients_stop more bad later _ s' h.1 fails
          (sym (>>=-ok (accept_client a) (λ _. accept_clients more) s next) ∙ e)

  prepare_step :
      (sockets : Sockets) (s : RtmpServer T)
      → IsListening sockets
      → prepare sockets s ≡ (ok tt, record s { server_sock = sockets.socket })
  unfolding prepare ◌>>=◌ then_do
  prepare_step sockets s h = rw (h.socket, h.setsockopt, h.bind, h.listen) refl

  -- A server whose socket can be opened, and which accepts clients until accept fails: start throws
  -- RtmpInternalError then, and until then it holds the threads of the clients that no later client's
  -- round found finished, in the order in which they came, whatever happens after the failure.
  pub start-survivors :
      (sockets : Sockets) (arrivals : List (Arrival T)) (bad : Arrival T) (later : List (Arrival T))
      → IsListening sockets
      → AllAccepted arrivals
      → eq_ℤ bad.client_sock minus_one ≡ true
      → let held : RtmpServer T = record {
        server_sock = sockets.socket;
        client_threads = survivors arrivals;
      } in
        (start sockets arrivals new_server ≡ (ok tt, held))
        × (start sockets (arrivals ++ bad ∷ later) new_server ≡ (err internal_error, held))
  unfolding start new_server
  start-survivors sockets arrivals bad later ready h fails =
      let opened : RtmpServer T = record { server_sock = sockets.socket; client_threads = [] } in
      let prepared = prepare_step sockets new_server ready in
      let runs = accept_clients-survivors arrivals opened h in
      (
        >>=-ok (prepare sockets) (λ _. accept_clients arrivals) new_server prepared ∙ runs,
        >>=-ok (prepare sockets) (λ _. accept_clients (arrivals ++ bad ∷ later)) new_server prepared
            ∙ accept_clients_stop arrivals bad later opened _ h fails runs,
      )
