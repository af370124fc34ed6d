-- ===== src/Gateway/Worker/Delivery.antt =====
-- What `client_worker` of src/gateway.c delivers of a stream of frames, and what its receive buffer
-- holds.
use linux_file_manager.Prelude.{
  All, List, Option, Option-cases, [], ap, append-nil, append_assoc, arith, drop, drop-append, inl,
  inr, length, length-append, length-drop, length-take, refl, some, suc, sym, take, take-nil, zero,
  ℕ, ◌++◌, ◌+◌, ◌-◌, ◌<◌, ◌∙◌, ◌∷◌, ◌≡◌, ◌≢◌, ◌≤◌,
}
use linux_file_manager.Protocol.Prefix.{
  parse_raw_bounds, parse_raw_invalid, parse_raw_nil, parse_raw_noise,
}
use linux_file_manager.Protocol.{
  ProtoMessage, incomplete, parse_raw, proto_frame_max, proto_magic_1,
}
use linux_file_manager.Protocol.Wire.{length-wire, message, parse_raw-wire, wire}
use linux_file_manager.Gateway.Worker.{
  on_piece, parse_all, receive_all, recv_buf_size, recv_some, ◌>>=◌,
}
use linux_file_manager.Gateway.Worker.Leftover.{IsSent, Item, stream_bytes, first_of_stream}
use linux_file_manager.Gateway.Worker.Stream.{
  >>=-assoc, >>=-cong, >>=-eq-some, ParseResult-cases, parse_all-append, parse_all-incomplete,
  parse_all-invalid, parse_all-parsed,
}

piece_split :
    (z c : ℕ) (xs : List ℕ) → take z (take c xs) ++ drop (length (take z (take c xs))) xs ≡ xs
piece_split zero c xs = refl
piece_split (suc z) zero xs = refl
piece_split (suc z) (suc c) [] = refl
piece_split (suc z) (suc c) (x ∷ xs) = ap (λ ys. x ∷ ys) (piece_split z c xs)

module _ {S : Type 0} (on : S → ProtoMessage → Option S) where
  -- The messages, one after another.
  unfoldable pub deliver : S → List Item → Option S
  deliver s [] = some s
  deliver s (i ∷ is) = on s (message i.header i.payload) >>= (λ s'. deliver s' is)

  -- Where the loop stops, the bytes left are no more than there were, and start no complete frame.
  parse_all_rest_upto :
      (k : ℕ) (s : S) (buf : List ℕ) (s' : S) (rest : List ℕ)
      → length buf ≤ k
      → parse_all on s buf ≡ some (s', rest)
      → (parse_raw rest ≡ incomplete) × (length rest ≤ length buf)
  parse_all_rest_upto zero s [] s' rest h e =
      let p : some (s, []) ≡ some (s', rest) =
        sym (parse_all-incomplete on s [] parse_raw_nil) ∙ e in
      ground (arith, p, parse_raw_nil)
  parse_all_rest_upto zero s (x ∷ buf) s' rest h e = absurd (omega arith)
  parse_all_rest_upto (suc k) s buf s' rest h e = elim (ParseResult-cases (parse_raw buf)) [
    | inl r ↦
        let p : some (s, buf) ≡ some (s', rest) = sym (parse_all-incomplete on s buf r) ∙ e in
        ground (arith, p, r)
    | inr (inl r) ↦
        let ih =
          parse_all_rest_upto k s (drop 1 buf) s' rest
            (omega (arith, length-drop 1 buf, parse_raw_invalid buf r))
            (sym (parse_all-invalid on s buf r) ∙ e) in
        (ih.0, omega (arith, ih.1, length-drop 1 buf))
    | inr (inr (n, m, r)) ↦
        let b = parse_raw_bounds buf n m r in
        let (t, e1, e2) =
          >>=-eq-some (on s m) (λ t. parse_all on t (drop n buf))
            (sym (parse_all-parsed on s buf n m r) ∙ e) in
        let ih =
          parse_all_rest_upto k t (drop n buf) s' rest (omega (arith, length-drop n buf, b)) e2 in
        (ih.0, omega (arith, ih.1, length-drop n buf))
  ]

  -- Where the loop stops, the bytes left over start no complete frame, and they are no more than
  -- there were: a buffer that held what was received holds what is left.
  pub parse_all_rest :
      (s : S) (buf : List ℕ) (s' : S) (rest : List ℕ)
      → parse_all on s buf ≡ some (s', rest)
      → (parse_raw rest ≡ incomplete) × (length rest ≤ length buf)
  parse_all_rest s buf s' rest e = parse_all_rest_upto (length buf) s buf s' rest (omega arith) e

  -- Bytes that are no first magic byte are skipped, if enough follow.
  parse_all-noise :
      (s : S) (noise buf : List ℕ)
      → All (λ b. b ≢ proto_magic_1) noise
      → 8 ≤ length buf
      → parse_all on s (noise ++ buf) ≡ parse_all on s buf
  parse_all-noise s [] buf q h = refl
  parse_all-noise s (b ∷ noise) buf q h =
      parse_all-invalid on s (b ∷ (noise ++ buf))
        (parse_raw_noise b (noise ++ buf) q.0 (omega (arith, length-append noise buf)))
      ∙ parse_all-noise s noise buf q.1 h

  parse_all-stream :
      (s : S) (is : List Item)
      → All IsSent is
      → parse_all on s (stream_bytes is) ≡ (deliver s is >>= (λ s'. some (s', [])))
  unfolding deliver
  parse_all-stream s [] h = parse_all-incomplete on s [] parse_raw_nil
  parse_all-stream s (i ∷ is) h =
      let buf = wire i.header i.payload ++ stream_bytes is in
      let q = parse_raw-wire i.header i.payload (stream_bytes is) h.0.magic1 h.0.magic2 h.0.sized in
      rw
        (
          append_assoc i.noise (wire i.header i.payload) (stream_bytes is),
          parse_all-noise s i.noise buf h.0.quiet (omega (arith, parse_raw_bounds buf _ _ q)),
          parse_all-parsed on s buf _ _ q,
          drop-append (8 + length i.payload + 1) (wire i.header i.payload) (stream_bytes is)
              (sym (length-wire i.header i.payload)),
        )
        (>>=-cong (on s (message i.header i.payload)) _ _ (λ s'. parse_all-stream s' is h.1)
          ∙ >>=-assoc (on s (message i.header i.payload)) (λ s'. deliver s' is)
              (λ s'. some (s', [])))

  recv_some_nil : (size : ℕ) (rest : List ℕ) → recv_some on size rest [] ≡ []
  recv_some_nil size rest =
      ap (take size) (take-nil (recv_buf_size - length rest - 1)) ∙ take-nil size

  -- Where there is room and something to come, `recv` gives at least one byte.
  recv_some_moves :
      (size : ℕ) (rest stream : List ℕ)
      → 0 < size
      → 0 < length stream
      → length rest < proto_frame_max
      → 0 < length (recv_some on size rest stream)
  recv_some_moves size rest stream some_there more room =
      let cap : ℕ = recv_buf_size - length rest - 1 in
      omega
        (arith, length-take size (take cap stream), length-take cap stream, some_there, more, room)

  received_rest :
      (size : ℕ) (rest stream : List ℕ)
      → recv_some on size rest stream ++ drop (length (recv_some on size rest stream)) stream
        ≡ stream
  received_rest size rest stream = piece_split size (recv_buf_size - length rest - 1) stream

  -- At the end of the stream the worker leaves its loop.
  receive_all_closed :
      (s : S) (rest : List ℕ) (z : ℕ) (zs : List ℕ)
      → receive_all on s rest [] (z ∷ zs) ≡ some (s, rest, [])
  unfolding receive_all on_piece
  receive_all_closed s rest z zs =
      ap (on_piece on (λ s' rest' later. receive_all on s' rest' later zs) s rest [])
        (recv_some_nil z rest)

  on_piece_more :
      (again : S → List ℕ → List ℕ → Option (S × List ℕ × List ℕ)) (s : S)
      (rest stream got : List ℕ)
      → 0 < length got
      → on_piece on again s rest stream got ≡ (
          parse_all on s (rest ++ got)
          >>= (λ (s', rest'). again s' rest' (drop (length got) stream)))
  unfolding on_piece
  on_piece_more again s rest stream [] h = absurd (omega (arith, h))
  on_piece_more again s rest stream (x ∷ xs) h = refl

  -- The loop leaves less of these bytes than a frame of the greatest length.
  abbrev LeavesLittle : List ℕ → Type 0
  LeavesLittle xs =
      (s s' : S) (r : List ℕ) → parse_all on s xs ≡ some (s', r) → length r < proto_frame_max

  -- `p` are the bytes that were received before.
  receive_all_from :
      (s0 s : S) (p rest stream sizes : List ℕ)
      → parse_all on s0 p ≡ some (s, rest)
      → All (λ size. 0 < size) sizes
      → length stream ≤ length sizes
      → ((xs ys : List ℕ) → xs ++ ys ≡ p ++ stream → LeavesLittle xs)
      → receive_all on s rest stream sizes
        ≡ (parse_all on s0 (p ++ stream) >>= (λ q. some (q.0, q.1, [])))
  unfolding receive_all
  receive_all_from s0 s p rest [] [] e h enough fits = rw (append-nil p, e) refl
  receive_all_from s0 s p rest (b ∷ bs) [] e h enough fits = absurd (omega (arith, enough))
  receive_all_from s0 s p rest [] (z ∷ zs) e h enough fits =
      rw (receive_all_closed s rest z zs, append-nil p, e) refl
  receive_all_from s0 s p rest (b ∷ bs) (z ∷ zs) e h enough fits =
      let stream : List ℕ = b ∷ bs in
      let got : List ℕ = recv_some on z rest stream in
      let later : List ℕ = drop (length got) stream in
      let moves : 0 < length got =
        recv_some_moves z rest stream h.0 (omega arith) (fits p stream refl s0 s rest e) in
      let goes_on =
        on_piece_more (λ s' rest' later. receive_all on s' rest' later zs) s rest stream got
          moves in
      let joined : (p ++ got) ++ later ≡ p ++ stream =
        append_assoc p got later ∙ ap (λ xs. p ++ xs) (received_rest z rest stream) in
      let before : parse_all on s0 (p ++ got) ≡ parse_all on s (rest ++ got) =
        parse_all-append on s0 p got ∙ ap (λ o. o >>= (λ q. parse_all on q.0 (q.1 ++ got))) e in
      goes_on ∙ elim (Option-cases (parse_all on s (rest ++ got))) [
        | inl gone ↦ rw (gone, ← joined, parse_all-append on s0 (p ++ got) later, before, gone) refl
        | inr ((s', rest'), parses) ↦
            rw (parses, ← joined)
              (receive_all_from s0 s' (p ++ got) rest' later zs (before ∙ parses) h.1
                (omega (arith, enough, moves, length-drop (length got) stream))
                (λ xs ys e'. fits xs ys (e' ∙ joined)))
      ]

  -- While the gateway runs, a peer sends frames of at most 512 bytes of payload, with whatever noise free
  -- of the byte 0xAA before each, and then closes. However few of its bytes are there at each `recv`, at least one each time, and
  -- with room for no more than `recv_buf` has left: within as many rounds as there are bytes, or more, the
  -- worker receives them all and hands the frames' messages on, every one, once, in order, and ends with
  -- an empty buffer, unless a message's handling faults.
  pub receive_all-stream :
      (s : S) (is : List Item) (sizes : List ℕ)
      → All IsSent is
      → All (λ size. 0 < size) sizes
      → length (stream_bytes is) ≤ length sizes
      → receive_all on s [] (stream_bytes is) sizes ≡ (deliver s is >>= (λ s'. some (s', [], [])))
  receive_all-stream s is sizes h some_there enough =
      receive_all_from s s [] [] (stream_bytes is) sizes
        (parse_all-incomplete on s [] parse_raw_nil) some_there enough
        (λ xs ys e. first_of_stream on is xs ys h e)
      ∙ rw (parse_all-stream s is h)
          (sym (>>=-assoc (deliver s is) (λ s'. some (s', [])) (λ q. some (q.0, q.1, []))))
