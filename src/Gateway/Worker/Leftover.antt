-- ===== src/Gateway/Worker/Leftover.antt =====
-- What the loop of `client_worker` of src/gateway.c leaves in its buffer, of the first bytes of a stream
-- of frames.
use mathlib.Core.Option.{some-injective}
use linux_file_manager.Prelude.{
  Bool-cases, append_assoc, All, List, Option, [], ap, arith, drop, drop-append, drop-append_le,
  inl, inr, leb, length, some, subst, sym, take, take-append, take-append-drop, take-append_le, ℕ,
  ◌++◌, ◌+◌, ◌<◌, ◌∙◌, ◌∷◌, ◌≡◌, ◌≢◌, ◌≤◌, ◌⊎◌,
}
use linux_file_manager.Protocol.Prefix.{
  parse_raw-append, parse_raw_bounds, parse_raw_nil, parse_raw_noise,
}
use linux_file_manager.Protocol.{
  ParseResult, ProtoHeader, ProtoMessage, incomplete, invalid, parse_raw, parsed, proto_frame_max,
  proto_magic_1, proto_magic_2, proto_max_payload,
}
use linux_file_manager.Protocol.Wire.{length-wire, message, parse_raw-wire, wire}
use linux_file_manager.Gateway.Worker.{parse_all}
use linux_file_manager.Gateway.Worker.Stream.{
  >>=-eq-some, ParseResult-cases, parse_all-incomplete, parse_all-invalid, parse_all-parsed,
}

-- One frame, with bytes before it that belong to none.
pub record Item : Type 0 where
  pub noise : List ℕ
  pub header : ProtoHeader
  pub payload : List ℕ

abbrev pub item_bytes : Item → List ℕ
item_bytes i = i.noise ++ wire i.header i.payload

-- The noise has no first magic byte, and the header is one for the payload, of at most 512 bytes.
pub record IsSent (i : Item) : Type 0 where
  pub quiet : All (λ b. b ≢ proto_magic_1) i.noise
  pub magic1 : i.header.magic1 ≡ proto_magic_1
  pub magic2 : i.header.magic2 ≡ proto_magic_2
  pub sized : i.header.payload_len ≡ length i.payload
  pub small : length i.payload ≤ proto_max_payload

abbrev pub stream_bytes : List Item → List ℕ
stream_bytes [] = []
stream_bytes (i ∷ is) = item_bytes i ++ stream_bytes is

le_or_lt : (a b : ℕ) → (a ≤ b) ⊎ (b < a)
le_or_lt a b = elim (Bool-cases (leb a b)) [
  | inl le ↦ inl (ground (arith, le))
  | inr gt ↦ inr (ground (arith, gt))
]

parse_raw_small : (raw : List ℕ) → length raw < 8 → parse_raw raw ≡ incomplete
unfolding parse_raw
parse_raw_small raw h = ground arith

head_or : ℕ → List ℕ → ℕ
head_or k [] = k
head_or k (x ∷ xs) = x

parsed_len : ℕ → ParseResult → ℕ
parsed_len k incomplete = k
parsed_len k invalid = k
parsed_len k (parsed n m) = n

module _ {S : Type 0} (on : S → ProtoMessage → Option S) where
  -- What the loop leaves of the first bytes of a stream is less than a frame of the greatest length.
  abbrev pub LeavesLittle : List Item → List ℕ → Type 0
  LeavesLittle is xs =
      (s s' : S) (r : List ℕ) → parse_all on s xs ≡ some (s', r) → length r < proto_frame_max

  stops_at_little :
      (s s' : S) (xs r : List ℕ)
      → parse_raw xs ≡ incomplete
      → length xs < proto_frame_max
      → parse_all on s xs ≡ some (s', r)
      → length r < proto_frame_max
  stops_at_little s s' xs r stops less e =
      let p : some (s, xs) ≡ some (s', r) = sym (parse_all-incomplete on s xs stops) ∙ e in
      let same : xs ≡ r = ap (λ (x : S × List ℕ). x.1) (some-injective (s, xs) (s', r) p) in
      subst (λ q. length q < proto_frame_max) same less

  -- The first bytes of a stream that starts with a frame.
  first_of_frame :
      (i : Item) (is : List Item) (xs ys : List ℕ)
      → IsSent i
      → ((zs : List ℕ) → zs ++ ys ≡ stream_bytes is → LeavesLittle is zs)
      → xs ++ ys ≡ wire i.header i.payload ++ stream_bytes is
      → LeavesLittle (i ∷ is) xs
  first_of_frame i is xs ys sent later e s s' r h =
      let size : ℕ = 8 + length i.payload + 1 in
      let whole : parse_raw (xs ++ ys) ≡ parsed size (message i.header i.payload) =
        ap parse_raw e
        ∙ parse_raw-wire i.header i.payload (stream_bytes is) sent.magic1 sent.magic2 sent.sized in
      elim (ParseResult-cases (parse_raw xs)) [
        | inl stops ↦ elim (le_or_lt size (length xs)) [
          | inl more ↦
              let front : take size xs ≡ wire i.header i.payload =
                sym (take-append_le size xs ys more)
                ∙ ap (take size) e
                ∙ take-append size (wire i.header i.payload) (stream_bytes is)
                    (sym (length-wire i.header i.payload)) in
              let again : parse_raw xs ≡ parsed size (message i.header i.payload) =
                ap parse_raw (sym (take-append-drop size xs) ∙ ap (λ ws. ws ++ drop size xs) front)
                ∙ parse_raw-wire i.header i.payload (drop size xs) sent.magic1 sent.magic2
                    sent.sized in
              absurd (ground (arith, stops, again))
          | inr less ↦ stops_at_little s s' xs r stops (omega (arith, less, sent.small)) h
        ]
        | inr (inl wrong) ↦ absurd (
            ground (
              arith,
              wrong,
              whole,
              parse_raw-append xs ys (λ p. absurd (ground (arith, p, wrong))),
            ))
        | inr (inr (n, m, done)) ↦
            let same : parsed n m ≡ parsed size (message i.header i.payload) =
              sym done
              ∙ sym (parse_raw-append xs ys (λ p. absurd (ground (arith, p, done))))
              ∙ whole in
            let n_is : n ≡ size = unfold parsed_len in ap (parsed_len 0) same in
            let b = parse_raw_bounds xs n m done in
            let (t, e1, e2) =
              >>=-eq-some (on s m) (λ t. parse_all on t (drop n xs))
                (sym (parse_all-parsed on s xs n m done) ∙ h) in
            later (drop n xs)
              (sym (drop-append_le n xs ys b.1)
                ∙ ap (drop n) e
                ∙ drop-append n (wire i.header i.payload) (stream_bytes is)
                    (n_is ∙ sym (length-wire i.header i.payload)))
              t s' r e2
      ]

  -- And of one that starts with noise.
  first_of_noise :
      (i : Item) (is : List Item) (noise xs ys : List ℕ)
      → All (λ b. b ≢ proto_magic_1) noise
      → ((zs : List ℕ)
          → zs ++ ys ≡ wire i.header i.payload ++ stream_bytes is
          → LeavesLittle (i ∷ is) zs)
      → xs ++ ys ≡ noise ++ (wire i.header i.payload ++ stream_bytes is)
      → LeavesLittle (i ∷ is) xs
  first_of_noise i is [] xs ys q later e s s' r h = later xs e s s' r h
  first_of_noise i is (b ∷ noise) [] ys q later e s s' r h =
      stops_at_little s s' [] r parse_raw_nil (omega arith) h
  first_of_noise i is (b ∷ noise) (x ∷ xs) ys q later e s s' r h = elim (le_or_lt 7 (length xs)) [
    | inl more ↦
        let x_is : x ≡ b = unfold head_or in ap (head_or 0) e in
        let rest : xs ++ ys ≡ noise ++ (wire i.header i.payload ++ stream_bytes is) =
          ap (drop 1) e in
        first_of_noise i is noise xs ys q.1 later rest s s' r (
          sym
            (parse_all-invalid on s (x ∷ xs) (parse_raw_noise x xs (λ p. q.0 (sym x_is ∙ p)) more))
          ∙ h)
    | inr less ↦
        stops_at_little s s' (x ∷ xs) r (parse_raw_small (x ∷ xs) (omega (arith, less)))
          (omega (arith, less)) h
  ]

  -- The first bytes of any stream.
  pub first_of_stream :
      (is : List Item) (xs ys : List ℕ)
      → All IsSent is
      → xs ++ ys ≡ stream_bytes is
      → LeavesLittle is xs
  first_of_stream [] [] ys h e s s' r g = stops_at_little s s' [] r parse_raw_nil (omega arith) g
  first_of_stream [] (x ∷ xs) ys h e s s' r g = absurd (ground (arith, ap length e))
  first_of_stream (i ∷ is) xs ys h e s s' r g =
      first_of_noise i is i.noise xs ys h.0.quiet
        (λ zs e'. first_of_frame i is zs ys h.0 (λ ws e''. first_of_stream is ws ys h.1 e'') e')
        (e ∙ append_assoc i.noise (wire i.header i.payload) (stream_bytes is)) s s' r g
