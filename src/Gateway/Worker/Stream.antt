-- ===== src/Gateway/Worker/Stream.antt =====
-- The receive loop of `client_worker` in src/gateway.c on a stream that arrives in pieces.
use linux_file_manager.Prelude.{
  List, Option, [], arith, drop, drop-append_le, inl, inr, length, length-drop, none, refl, some,
  suc, sym, zero, ℕ, ◌++◌, ◌∙◌, ◌∷◌, ◌≡◌, ◌≢◌, ◌≤◌, ◌⊎◌,
}
use linux_file_manager.Protocol.{
  ParseResult, ProtoMessage, incomplete, invalid, parse_raw, parsed, proto_parse_frame,
}
use linux_file_manager.Protocol.Prefix.{
  parse_raw-append, parse_raw_bounds, parse_raw_invalid, parse_raw_nil,
}
use linux_file_manager.Gateway.Worker.{parse_all, parse_frames, ◌>>=◌}

pub ParseResult-cases :
    (r : ParseResult)
    → (r ≡ incomplete) ⊎ (r ≡ invalid) ⊎ ((n : ℕ) × (m : ProtoMessage) × (r ≡ parsed n m))
ParseResult-cases incomplete = inl refl
ParseResult-cases invalid = inr (inl refl)
ParseResult-cases (parsed n m) = inr (inr (n, m, refl))

pub >>=-cong :
    {A B : Type 0} (o : Option A) (f g : A → Option B)
    → ((a : A) → f a ≡ g a)
    → (o >>= f) ≡ (o >>= g)
>>=-cong none f g h = refl
>>=-cong (some a) f g h = h a

pub >>=-assoc :
    {A B C : Type 0} (o : Option A) (f : A → Option B) (g : B → Option C)
    → (o >>= (λ a. f a >>= g)) ≡ ((o >>= f) >>= g)
>>=-assoc none f g = refl
>>=-assoc (some a) f g = refl

pub >>=-eq-some :
    {A B : Type 0} (o : Option A) (f : A → Option B) {b : B}
    → (o >>= f) ≡ some b
    → (a : A) × (o ≡ some a) × (f a ≡ some b)
>>=-eq-some none f h = cc
>>=-eq-some (some a) f h = (a, refl, h)

module _ {S : Type 0} (on : S → ProtoMessage → Option S) where
  -- More fuel than bytes changes nothing.
  parse_frames_fuel :
      (f g : ℕ) (s : S) (buf : List ℕ)
      → length buf ≤ f
      → length buf ≤ g
      → parse_frames on f s buf ≡ parse_frames on g s buf
  unfolding parse_frames proto_parse_frame
  parse_frames_fuel zero zero s buf hf hg = refl
  parse_frames_fuel zero (suc g) s [] hf hg = rw (parse_raw_nil, parse_frames)
  parse_frames_fuel zero (suc g) s (x ∷ buf) hf hg = absurd (omega arith)
  parse_frames_fuel (suc f) zero s [] hf hg = rw (parse_raw_nil, parse_frames)
  parse_frames_fuel (suc f) zero s (x ∷ buf) hf hg = absurd (omega arith)
  parse_frames_fuel (suc f) (suc g) s buf hf hg = elim (ParseResult-cases (parse_raw buf)) [
    | inl e ↦ rw (e, parse_frames)
    | inr (inl e) ↦
        rw (e, parse_frames)
          (parse_frames_fuel f g s (drop 1 buf)
            (omega (arith, parse_raw_invalid buf e, length-drop 1 buf))
            (omega (arith, parse_raw_invalid buf e, length-drop 1 buf)))
    | inr (inr (n, m, e)) ↦
        let b = parse_raw_bounds buf n m e in
        rw (e, parse_frames)
          (>>=-cong (on s m) _ _ (λ s'.
            parse_frames_fuel f g s' (drop n buf) (omega (arith, b, length-drop n buf))
              (omega (arith, b, length-drop n buf))))
  ]

  -- One round of the loop.
  parse_all_once :
      (s : S) (buf : List ℕ) → parse_all on s buf ≡ parse_frames on (suc (length buf)) s buf
  unfolding parse_all
  parse_all_once s buf =
      parse_frames_fuel (length buf) (suc (length buf)) s buf (omega arith) (omega arith)

  module _ (s : S) (buf : List ℕ) where
    pub parse_all-incomplete : parse_raw buf ≡ incomplete → parse_all on s buf ≡ some (s, buf)
    unfolding parse_frames proto_parse_frame
    parse_all-incomplete e = parse_all_once s buf ∙ rw (e, parse_frames)

    pub parse_all-invalid :
        parse_raw buf ≡ invalid → parse_all on s buf ≡ parse_all on s (drop 1 buf)
    unfolding parse_frames proto_parse_frame parse_all
    parse_all-invalid e =
        parse_all_once s buf
        ∙ rw (e, parse_frames)
            (parse_frames_fuel (length buf) (length (drop 1 buf)) s (drop 1 buf)
              (omega (arith, length-drop 1 buf)) (omega arith))

    pub parse_all-parsed :
        (n : ℕ) (m : ProtoMessage)
        → parse_raw buf ≡ parsed n m
        → parse_all on s buf ≡ (on s m >>= (λ s'. parse_all on s' (drop n buf)))
    unfolding parse_frames proto_parse_frame parse_all
    parse_all-parsed n m e =
        parse_all_once s buf
        ∙ rw (e, parse_frames)
            (>>=-cong (on s m) _ _ (λ s'.
              parse_frames_fuel (length buf) (length (drop n buf)) s' (drop n buf)
                (omega (arith, length-drop n buf)) (omega arith)))

  -- What the loop does with `ys` when it arrives behind the bytes that were left.
  abbrev resume : List ℕ → S × List ℕ → Option (S × List ℕ)
  resume ys p = parse_all on p.0 (p.1 ++ ys)

  settled :
      (xs ys : List ℕ) (r : ParseResult)
      → r ≢ incomplete
      → parse_raw xs ≡ r
      → parse_raw (xs ++ ys) ≡ r
  settled xs ys r ne e = parse_raw-append xs ys (λ bad. ne (sym e ∙ bad)) ∙ e

  parse_all-append_upto :
      (k : ℕ) (s : S) (xs ys : List ℕ)
      → length xs ≤ k
      → parse_all on s (xs ++ ys) ≡ (parse_all on s xs >>= resume ys)
  parse_all-append_upto zero s [] ys h = rw (parse_all-incomplete s [] parse_raw_nil)
  parse_all-append_upto zero s (x ∷ xs) ys h = absurd (omega arith)
  parse_all-append_upto (suc k) s xs ys h = elim (ParseResult-cases (parse_raw xs)) [
    | inl e ↦ rw (parse_all-incomplete s xs e)
    | inr (inl e) ↦
        rw
          (
            parse_all-invalid s xs e,
            parse_all-invalid s (xs ++ ys) (settled xs ys invalid (λ bad. cc) e),
            drop-append_le 1 xs ys (omega (arith, parse_raw_invalid xs e)),
          )
          (parse_all-append_upto k s (drop 1 xs) ys
            (omega (arith, length-drop 1 xs, parse_raw_invalid xs e)))
    | inr (inr (n, m, e)) ↦
        let b = parse_raw_bounds xs n m e in
        rw
          (
            parse_all-parsed s xs n m e,
            parse_all-parsed s (xs ++ ys) n m (settled xs ys (parsed n m) (λ bad. cc) e),
            drop-append_le n xs ys (omega (arith, b)),
          )
          (>>=-cong (on s m) _ _
              (λ s'. parse_all-append_upto k s' (drop n xs) ys (omega (arith, length-drop n xs, b)))
            ∙ >>=-assoc (on s m) (λ s'. parse_all on s' (drop n xs)) (resume ys))
  ]

  -- The loop on a stream that arrives in two pieces does what it does on the whole: half a frame
  -- waits for the rest of it, and nothing is lost or seen twice.
  pub parse_all-append :
      (s : S) (xs ys : List ℕ)
      → parse_all on s (xs ++ ys) ≡ (parse_all on s xs >>= (λ p. parse_all on p.0 (p.1 ++ ys)))
  parse_all-append s xs ys = parse_all-append_upto (length xs) s xs ys (omega arith)
