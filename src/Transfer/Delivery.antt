-- ===== src/Transfer/Delivery.antt =====
-- What send_all and send_file deliver.
use let_us_connect_http_serv.Base.{
  All, Bytes, List, Option, Outcome, [], ap, append_assoc, arith, drop, fault, inl, inr, length,
  length-drop, negsuc, ok, pos, refl, some, subst, suc, take, take-append-drop, ℕ, ℤ, ◌++◌, ◌∙◌,
  ◌∷◌, ◌≡◌, ◌≢◌, ◌≤◌, ◌⊎◌,
}
use let_us_connect_http_serv.Transfer.{
  LastCall, Returned, bytes, failed, file_loop, interrupted, minus_one, returned, send_all,
  send_file, send_loop, transferred, unset, would_block,
}

-- What the calls are known to do: a call that takes bytes takes at least one.
abbrev pub Progresses : Returned → Type 0
Progresses (transferred k) = 1 ≤ k
Progresses _ = Unit

-- The calls that are not interrupted.
abbrev pub rounds : List Returned → ℕ
rounds [] = 0
rounds (interrupted ∷ calls) = rounds calls
rounds (transferred _ ∷ calls) = suc (rounds calls)
rounds (would_block ∷ calls) = suc (rounds calls)
rounds (failed ∷ calls) = suc (rounds calls)

-- The result is 0 with all of the bytes taken, or -1 with a proper beginning of them.
pub record Delivers (buf taken : Bytes) (result : ℤ) : Type 0 where
  pub left : Bytes
  pub in_order : buf ≡ taken ++ left
  pub complete : (result ≡ pos 0 × left ≡ []) ⊎ (result ≡ negsuc 0 × left ≢ [])

abbrev pub Returns : Bytes → Option (Outcome (ℤ × Bytes)) → Type 0
Returns buf m =
    (result : ℤ) × (taken : Bytes) × (m ≡ some (ok (result, taken))) × Delivers buf taken result

cut_short : (taken : Bytes) (c : ℕ) (left : Bytes) → Delivers (taken ++ (c ∷ left)) taken (negsuc 0)
cut_short taken c left = record { left = c ∷ left; in_order = refl; complete = inr (refl, λ e. cc) }

send_loop-Returns :
    (calls : List Returned) (n : LastCall) (taken left : Bytes)
    → All Progresses calls
    → length left ≤ rounds calls
    → (left ≢ []) ⊎ (n ≡ bytes)
    → Returns (taken ++ left) (send_loop calls n taken left)
unfolding send_loop returned
send_loop-Returns calls n taken [] h enough (inl more) = absurd (more refl)
send_loop-Returns calls n taken [] h enough (inr set) =
    (pos 0, taken, rw set refl, record { left = []; in_order = refl; complete = inl (refl, refl) })
send_loop-Returns [] n taken (c ∷ left) h enough m = absurd (omega arith)
send_loop-Returns (transferred k ∷ calls) n taken (c ∷ left) h enough m =
    subst (λ b. Returns b (send_loop calls bytes (taken ++ take k (c ∷ left)) (drop k (c ∷ left))))
      (append_assoc taken (take k (c ∷ left)) (drop k (c ∷ left))
        ∙ ap (◌++◌ taken) (take-append-drop k (c ∷ left)))
      (send_loop-Returns calls bytes (taken ++ take k (c ∷ left)) (drop k (c ∷ left)) h.1
        (omega (arith, length-drop k (c ∷ left), h.0)) (inr refl))
send_loop-Returns (interrupted ∷ calls) n taken (c ∷ left) h enough m =
    send_loop-Returns calls minus_one taken (c ∷ left) h.1 enough (inl (λ e. cc))
send_loop-Returns (would_block ∷ calls) n taken (c ∷ left) h enough m =
    (negsuc 0, taken, refl, cut_short taken c left)
send_loop-Returns (failed ∷ calls) n taken (c ∷ left) h enough m =
    (negsuc 0, taken, refl, cut_short taken c left)

-- When every call of `send` that takes bytes takes at least one, and it is called, uninterrupted,
-- as often as there are bytes, `send_all` of a text that is not empty returns: 0 with all of the
-- text taken, or -1 with a proper beginning of it taken, in order, nothing twice.
pub send_all-Returns :
    (calls : List Returned) (buf : Bytes)
    → All Progresses calls
    → length buf ≤ rounds calls
    → buf ≢ []
    → Returns buf (send_all calls buf)
unfolding send_all
send_all-Returns calls buf h enough more = send_loop-Returns calls unset [] buf h enough (inl more)

-- An empty text, and an empty file, are sent without a call, and the `n` that is returned on is
-- read uninitialised.
pub send-empty :
    (calls : List Returned) → (send_all calls [] ≡ some fault) × (send_file calls 0 ≡ some fault)
unfolding send_all send_file send_loop file_loop returned
send-empty calls = (refl, refl)
