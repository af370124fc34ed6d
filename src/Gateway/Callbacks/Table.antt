-- ===== src/Gateway/Callbacks/Table.antt =====
-- The callbacks of src/menu.c leave the descriptors in the table, and close no socket.
use linux_file_manager.Prelude.{
  List, Option-cases, [], arith, get_elem?, inl, inr, length, refl, some, ℕ, ◌∙◌, ◌∷◌, ◌≡◌,
}
use linux_file_manager.Gateway.{
  Env, GatewayCtx, GatewayDevice, Handler, cmd_gpio_control, cmd_sensor_data, cmd_stm32_register,
  flag_response, gpio_control, register, sensor_data,
}
use linux_file_manager.Gateway.Kept.{
  Keeps, Keeps-refl, Keeps-trans, fds-set, gateway_send_response-Keeps,
}
use linux_file_manager.Gateway.Callbacks.{
  call_handler, call_on, handle_gpio_control, handle_register, handle_sensor_data, put_device,
  register_id, register_type, respond,
}

register_id-fd :
    (d : GatewayDevice) (payload : List ℕ) (len : ℕ) → (register_id d payload len).fd ≡ d.fd
unfolding register_id
register_id-fd d payload len = ground arith

register_type-fd :
    (d : GatewayDevice) (payload : List ℕ) (len : ℕ) → (register_type d payload len).fd ≡ d.fd
unfolding register_type
register_type-fd d payload len = ground arith

module _ (env : Env) where
  respond-Keeps :
      (c : GatewayCtx) (d : GatewayDevice) (cmd seq : ℕ) (bytes : List ℕ)
      → Keeps c (respond env c d cmd seq bytes)
  unfolding respond
  respond-Keeps c d cmd seq bytes =
      gateway_send_response-Keeps env c d.fd cmd flag_response seq (some bytes) (length bytes)

  register-Keeps :
      (c : GatewayCtx) (i : ℕ) (d : GatewayDevice) (seq : ℕ) (payload : List ℕ) (len : ℕ)
      → get_elem? c.devices i ≡ some d
      → Keeps c (handle_register env c i d seq payload len)
  unfolding handle_register
  register-Keeps c i d seq payload len e =
      let d' : GatewayDevice = register_type (register_id d payload len) payload len in
      let same : d'.fd ≡ d.fd =
        register_type-fd (register_id d payload len) payload len ∙ register_id-fd d payload len in
      Keeps-trans c (put_device c i d') _
        (record {
          same_fds = fds-set c.devices i d d' e same;
          same_closes = λ k. refl;
          same_main = refl;
        })
        (respond-Keeps (put_device c i d') d' cmd_stm32_register seq (0x00 ∷ 0x01 ∷ []))

  call_on-Keeps :
      (c : GatewayCtx) (h : Handler) (i : ℕ) (d : GatewayDevice) (seq : ℕ) (payload : List ℕ)
      (len : ℕ)
      → get_elem? c.devices i ≡ some d
      → Keeps c (call_on env c h i d seq payload len)
  unfolding call_on handle_sensor_data handle_gpio_control
  call_on-Keeps c sensor_data i d seq payload len e =
      respond-Keeps c d cmd_sensor_data seq (0x01 ∷ [])
  call_on-Keeps c register i d seq payload len e = register-Keeps c i d seq payload len e
  call_on-Keeps c gpio_control i d seq payload len e =
      respond-Keeps c d cmd_gpio_control seq (0x01 ∷ [])

  -- Also for a pointer behind the table.
  pub call_handler-Keeps :
      (c : GatewayCtx) (h : Handler) (i seq : ℕ) (payload : List ℕ) (len : ℕ)
      → Keeps c (call_handler env c h i seq payload len)
  unfolding call_handler
  call_handler-Keeps c h i seq payload len = elim (Option-cases (get_elem? c.devices i)) [
    | inl e ↦ rw (e, call_handler) (Keeps-refl c)
    | inr (d, e) ↦ rw (e, call_handler) (call_on-Keeps c h i d seq payload len e)
  ]
