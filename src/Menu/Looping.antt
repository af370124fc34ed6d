-- ===== src/Menu/Looping.antt =====
-- The loop of `menu_start` in src/menu.c: when it returns.
use linux_file_manager.Prelude.{
  Bool-cases, List, [], ap, arith, false, inl, inr, length, negsuc, none, pos, refl, some, subst,
  suc, sym, true, zero, ℕ, ℤ, ◌∙◌, ◌∷◌, ◌≡◌, ◌≤◌,
}
use linux_file_manager.Shell.{log_info}
use linux_file_manager.Terminal.Lines.{scan_int_zero, scan_int_eleven}
use linux_file_manager.Terminal.{clear_input_buffer, scan_int}
use linux_file_manager.Os.{Os}
use linux_file_manager.Terminal.Consuming.{scan_int-clear_input_buffer_end}
use linux_file_manager.Menu.{
  menu_served, menu_server, Menu, Setting, Turn, copying, faulted, goes_on, left, menu_choice,
  menu_exit, menu_read_choice, menu_turn,
}
use linux_file_manager.Menu.Replies.{Stays, choice-Stays, has_left, is_zero}

module _ {W : Type 0} where
  pub continued : (Menu W → Turn W) → Turn W → Turn W
  continued f (goes_on m) = f m
  continued f (left m) = left m
  continued f faulted = faulted
  continued f copying = copying

-- At most so many turns of `while(1)`.
pub menu_turns : {W : Type 0} → Os W → Setting W → ℕ → Menu W → Turn W
unfolding continued menu_turn
menu_turns os given zero m = goes_on m
menu_turns os given (suc n) m = continued (menu_turns os given n) (menu_turn os given m)

zero_choice : (c : ℤ) → is_zero c ≡ true → c ≡ pos 0
zero_choice (pos zero) h = refl
zero_choice (pos (suc n)) h = absurd (ground (arith, h))
zero_choice (negsuc n) h = absurd (ground (arith, h))

Stays-has_left : {W : Type 0} (c : ℤ) (n : ℕ) (t : Turn W) → Stays c n t → has_left t ≡ false
Stays-has_left c n (goes_on m) h = refl
Stays-has_left c n (left m) h = absurd h
Stays-has_left c n faulted h = refl
Stays-has_left c n copying h = refl

module _ {W : Type 0} (os : Os W) (given : Setting W)
    (served : (w w' : W) (input rest : List ℕ)
      → given.serve w input ≡ some (w', rest)
      → length rest ≤ length input) where
  choice_zero : (m : Menu W) → has_left (menu_choice os given m (pos 0)) ≡ true
  unfolding menu_choice menu_exit
  choice_zero m = refl

  -- A turn returns when the number that was read, or else the one of the turn before, is 0, and not
  -- when it is another. Condition: the gateway server gives no input back.
  pub menu_turn_left :
      (m : Menu W) → has_left (menu_turn os given m) ≡ is_zero (menu_read_choice os given m).choice
  unfolding menu_turn
  menu_turn_left m =
      let m' : Menu W = menu_read_choice os given m in
      elim (Bool-cases (is_zero m'.choice)) [
        | inl zeroed ↦
            ap (λ c. has_left (menu_choice os given m' c)) (zero_choice m'.choice zeroed)
            ∙ choice_zero m'
            ∙ sym zeroed
        | inr other ↦
            Stays-has_left m'.choice (length m'.input) _
              (choice-Stays os given served m' m'.choice other)
            ∙ sym other
      ]

  at_end :
      (m : Menu W)
      → m.input ≡ []
      → ((menu_read_choice os given m).choice ≡ m.choice)
        × ((menu_read_choice os given m).input ≡ [])
  unfolding menu_read_choice
  at_end m e =
      let (scanned, cleared) = scan_int-clear_input_buffer_end in
      (
        ap (λ xs. elim (scan_int xs).0 [ none ↦ m.choice | some k ↦ k ]) e
            ∙ ap (λ r. elim r.0 [ none ↦ m.choice | some k ↦ k ]) scanned,
        ap (λ xs. clear_input_buffer (scan_int xs).1) e
            ∙ ap (λ r. clear_input_buffer r.1) scanned
            ∙ cleared,
      )

  empty_of : (xs : List ℕ) → length xs ≤ 0 → xs ≡ []
  empty_of [] h = refl
  empty_of (x ∷ xs) h = absurd (omega (arith, h))

  continued_stuck :
      (c : ℤ) (f : Menu W → Turn W) (t : Turn W)
      → ((m' : Menu W) → m'.input ≡ [] → is_zero m'.choice ≡ false → has_left (f m') ≡ false)
      → is_zero c ≡ false
      → Stays c 0 t
      → has_left (continued f t) ≡ false
  unfolding continued
  continued_stuck c f (goes_on m') next h (same, none_left) =
      next m' (empty_of m'.input none_left) (ap is_zero same ∙ h)
  continued_stuck c f (left m') next h s = absurd s
  continued_stuck c f faulted next h s = refl
  continued_stuck c f copying next h s = refl

  turn-Stays :
      (m : Menu W)
      → m.input ≡ []
      → is_zero m.choice ≡ false
      → Stays m.choice 0 (menu_turn os given m)
  unfolding menu_turn
  turn-Stays m e h =
      let m' : Menu W = menu_read_choice os given m in
      let (same, gone) = at_end m e in
      subst (λ c. Stays c 0 (menu_choice os given m' m'.choice)) same
        (subst (λ xs. Stays m'.choice (length xs) (menu_choice os given m' m'.choice)) gone
          (choice-Stays os given served m' m'.choice (ap is_zero same ∙ h)))

  -- At the end of the input, with a last choice other than 0, no number of turns returns: the loop
  -- shows the menu and acts on that choice again for ever, unless a copy overflows its buffer or
  -- does not end. Condition: the gateway server gives no input back.
  pub menu_turns_stuck :
      (m : Menu W) (n : ℕ)
      → m.input ≡ []
      → is_zero m.choice ≡ false
      → has_left (menu_turns os given n m) ≡ false
  unfolding menu_turns
  menu_turns_stuck m zero e h = refl
  menu_turns_stuck m (suc n) e h =
      continued_stuck m.choice (menu_turns os given n) (menu_turn os given m)
        (λ m' e' h'. menu_turns_stuck m' n e' h') h (turn-Stays m e h)

-- When 0 is typed, the first turn returns.
pub menu_turns_exit :
    {W : Type 0} (os : Os W) (given : Setting W) (m : Menu W) (rest : List ℕ) (n : ℕ)
    → m.input ≡ b'0' ∷ b'\n' ∷ rest
    → (m' : Menu W) × (menu_turns os given (suc n) m ≡ left m')
      × (m'.input ≡ rest)
      × (m'.shell.world ≡ given.log_exit m.shell.world)
unfolding menu_turns continued menu_turn menu_read_choice menu_choice menu_exit
menu_turns_exit {W} os given m rest n typed =
    let (chosen, cleared) = scan_int_zero rest in
    let m1 : Menu W = menu_read_choice os given m in
    let zeroed : m1.choice ≡ pos 0 =
      ap (λ xs. elim (scan_int xs).0 [ none ↦ m.choice | some k ↦ k ]) typed
      ∙ ap (λ r. elim r [ none ↦ m.choice | some k ↦ k ]) chosen in
    (
      record m1 {
        shell =
            log_info (record m1.shell { world = given.log_exit m1.shell.world }) "User exit system";
      },
      ap (λ k. continued (menu_turns os given n) (menu_choice os given m1 k)) zeroed,
      ap (λ xs. clear_input_buffer (scan_int xs).1) typed ∙ cleared,
      refl,
    )

-- When 11 is typed, the first turn runs the gateway server on what is typed behind it.
pub menu_turns_serve :
    {W : Type 0} (os : Os W) (given : Setting W) (m : Menu W) (input rest : List ℕ) (w : W) (n : ℕ)
    → m.input ≡ b'1' ∷ b'1' ∷ b'\n' ∷ input
    → given.serve m.shell.world input ≡ some (w, rest)
    → (m' : Menu W) × (menu_turns os given (suc n) m ≡ menu_turns os given n m')
      × (m'.input ≡ rest)
      × (m'.shell.world ≡ w)
unfolding menu_turns continued menu_turn menu_read_choice menu_choice menu_server menu_served
menu_turns_serve {W} os given m input rest w n typed serves =
    let (chosen, cleared) = scan_int_eleven input in
    let m1 : Menu W = menu_read_choice os given m in
    let eleven : m1.choice ≡ pos 11 =
      ap (λ xs. elim (scan_int xs).0 [ none ↦ m.choice | some k ↦ k ]) typed
      ∙ ap (λ r. elim r [ none ↦ m.choice | some k ↦ k ]) chosen in
    let left_over : m1.input ≡ input =
      ap (λ xs. clear_input_buffer (scan_int xs).1) typed ∙ cleared in
    (
      record m1 { shell = record m1.shell { world = w }; input = rest },
      ap (λ k. continued (menu_turns os given n) (menu_choice os given m1 k)) eleven
          ∙ ap
              (λ xs.
                continued (menu_turns os given n)
                  (menu_served os given m1 (given.serve m.shell.world xs)))
              left_over
          ∙ ap (λ r. continued (menu_turns os given n) (menu_served os given m1 r)) serves,
      refl,
      refl,
    )
