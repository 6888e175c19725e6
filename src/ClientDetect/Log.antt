-- ===== src/ClientDetect/Log.antt =====
-- The inspector's log of pkg/clientdetect/clientdetect.go against the list of all ClientHellos that it
-- has seen.
use cloudflared_fips.Prelude.{
  ℕ, zero, suc, ◌+◌, ◌-◌, ◌≤◌, min, ◌≡◌, refl, sym, ap, ◌∙◌, inl, inr, String, List, [], ◌∷◌, ◌++◌,
  length, drop, length-append, length-drop, Bool-cases, ltb, map, arith,
}
use mathlib.Core.List.{append-nil, append_assoc}
use cloudflared_fips.Prelude.Int.{ℤ, pos, negsuc}
use cloudflared_fips.ClientDetect.{
  ClientHello, ClientInfo, Inspector, new_inspector, log_client, info_of, get_config_for_client,
  asked, recent_clients,
}

step : (a b : ℕ) → suc (b + a) ≡ suc b + a
step a b = omega arith

module _ {A : Type 0} where
  drop-append : (n : ℕ) (xs ys : List A) → n ≤ length xs → drop n (xs ++ ys) ≡ drop n xs ++ ys
  drop-append zero xs ys h = refl
  drop-append (suc n) [] ys h = absurd (omega arith)
  drop-append (suc n) (x ∷ xs) ys h = drop-append n xs ys (omega arith)

  drop-nil : (n : ℕ) → drop {A = A} n [] ≡ []
  drop-nil zero = refl
  drop-nil (suc n) = refl

  drop-drop : (a b : ℕ) (xs : List A) → drop a (drop b xs) ≡ drop (b + a) xs
  drop-drop a zero xs = ap (λ k. drop k xs) (omega arith)
  drop-drop a (suc b) [] = drop-nil a ∙ sym (drop-nil (suc b + a))
  drop-drop a (suc b) (x ∷ xs) = drop-drop a b xs ∙ ap (λ k. drop k (x ∷ xs)) (step a b)

-- the newest records, as many as there is room for
abbrev pub newest : ℕ → List ClientInfo → List ClientInfo
newest room seen = drop (length seen - room) seen

log_client-newest :
    (info : ClientInfo) (ins : Inspector) (seen : List ClientInfo)
    → ins.clients ≡ newest ins.max_log seen
    → (log_client info ins).clients ≡ newest ins.max_log (seen ++ info ∷ [])
unfolding log_client
log_client-newest info ins seen held =
    let before = length seen - ins.max_log in
    let grown =
      ap (λ l. l ++ info ∷ []) held ∙ sym (drop-append before seen (info ∷ []) (omega arith)) in
    let size = length-append ins.clients (info ∷ []) in
    let size_held = ap length held ∙ length-drop before seen in
    let size_seen = length-append seen (info ∷ []) in
    elim (Bool-cases (ltb ins.max_log (length (ins.clients ++ info ∷ [])))) [
      | inl e ↦ rw e (
          ap (drop (length (ins.clients ++ info ∷ []) - ins.max_log)) grown
          ∙ drop-drop (length (ins.clients ++ info ∷ []) - ins.max_log) before (seen ++ info ∷ [])
          ∙ ap (λ k. drop k (seen ++ info ∷ [])) (ground (arith, e, size, size_held, size_seen)))
      | inr e ↦ rw e (
          grown
          ∙ ap (λ k. drop k (seen ++ info ∷ [])) (ground (arith, e, size, size_held, size_seen)))
    ]

log_client-max_log :
    (info : ClientInfo) (ins : Inspector) → (log_client info ins).max_log ≡ ins.max_log
unfolding log_client
log_client-max_log info ins = ground arith

module _ (ja4 : ClientHello → String) where
  -- the callback for one ClientHello after the other, each with the time of its call
  pub inspect_all : List (ℕ × ClientHello) → Inspector → Inspector
  inspect_all [] ins = ins
  inspect_all ((now, hello) ∷ rest) ins = inspect_all rest (get_config_for_client ja4 now hello ins)

  abbrev pub seen_of : List (ℕ × ClientHello) → List ClientInfo
  seen_of = map (λ p. info_of ja4 p.0 p.1)

  inspect_all-newest :
      (hellos : List (ℕ × ClientHello)) (ins : Inspector) (seen : List ClientInfo)
      → ins.clients ≡ newest ins.max_log seen
      → ((inspect_all hellos ins).clients ≡ newest ins.max_log (seen ++ seen_of hellos))
        × ((inspect_all hellos ins).max_log ≡ ins.max_log)
  unfolding inspect_all get_config_for_client log_client
  inspect_all-newest [] ins seen held = (rw (append-nil) held, refl)
  inspect_all-newest ((now, hello) ∷ rest) ins seen held =
      let info = info_of ja4 now hello in
      let next = log_client info ins in
      let same = log_client-max_log info ins in
      let kept = log_client-newest info ins seen held in
      let (clients, size) = inspect_all-newest rest next (seen ++ info ∷ []) (rw same kept) in
      (rw (append_assoc, same) at clients, size ∙ same)

start : (limit : ℤ) → (new_inspector limit).clients ≡ newest (new_inspector limit).max_log []
unfolding new_inspector
start (pos zero) = refl
start (pos (suc n)) = sym (drop-nil (0 - suc n))
start (negsuc n) = refl

asked-le : (n : ℤ) (total : ℕ) → asked n total ≤ total
asked-le (pos n) total = ground arith
asked-le (negsuc n) total = omega arith

-- the room that a limit gives the log
abbrev pub room_for : ℤ → ℕ
room_for (pos (suc n)) = suc n
room_for _ = 1000

-- how many of the newest records a request gets, where the log has room for so many
abbrev pub wanted : ℤ → ℕ → ℕ
wanted (pos (suc n)) room = min (suc n) room
wanted _ room = room

new_inspector-room_for : (limit : ℤ) → (new_inspector limit).max_log ≡ room_for limit
unfolding new_inspector
new_inspector-room_for (pos zero) = refl
new_inspector-room_for (pos (suc n)) = refl
new_inspector-room_for (negsuc n) = refl

asked-wanted : (n : ℤ) (room total : ℕ) → total - asked n (min room total) ≡ total - wanted n room
asked-wanted (pos zero) room total = ground arith
asked-wanted (pos (suc n)) room total = ground arith
asked-wanted (negsuc n) room total = omega arith

recent_clients-newest :
    (n : ℤ) (ins : Inspector) (room : ℕ) (seen : List ClientInfo)
    → ins.clients ≡ newest room seen
    → recent_clients n ins ≡ newest (wanted n room) seen
unfolding recent_clients
recent_clients-newest n ins room seen held =
    let before = length seen - room in
    let size : length ins.clients ≡ min room (length seen) =
      omega (arith, ap length held, length-drop before seen) in
    let fits = asked-le n (min room (length seen)) in
    rw (size, held)
      (drop-drop (min room (length seen) - asked n (min room (length seen))) before seen
        ∙ ap (λ k. drop k seen) (omega (arith, asked-wanted n room (length seen))))

-- However many ClientHellos a new inspector has seen, its log holds the newest of them, oldest first:
-- as many as its limit, or 1000 where the limit is not positive. So `RecentClients` returns the last
-- records of the whole history, oldest first: as many as it is asked for, and no more than the log has
-- room for; where the number is not positive, as many as the log has room for.
pub recent_clients-history :
    (ja4 : ClientHello → String) (limit n : ℤ) (hellos : List (ℕ × ClientHello))
    → let ins = inspect_all ja4 hellos (new_inspector limit) in
      let seen = seen_of ja4 hellos in
      (ins.clients ≡ newest (room_for limit) seen)
      × (recent_clients n ins ≡ newest (wanted n (room_for limit)) seen)
recent_clients-history ja4 limit n hellos =
    let ins = inspect_all ja4 hellos (new_inspector limit) in
    let seen = seen_of ja4 hellos in
    let (all, _) = inspect_all-newest ja4 hellos (new_inspector limit) [] (start limit) in
    let held : ins.clients ≡ newest (room_for limit) seen =
      all ∙ ap (λ room. newest room seen) (new_inspector-room_for limit) in
    (held, recent_clients-newest n ins (room_for limit) seen held)
