-- ===== src/Gateway/Callbacks.antt =====
-- The message callbacks of src/menu.c, `handle_sensor_data`, `handle_register` and
-- `handle_gpio_control`, and their registration. `dev` is the index that the device pointer denotes;
-- `g_gateway_ctx` is the context that calls them. Prints and the event log are left out.
pub mod Table
use linux_file_manager.Prelude.{
  List, [], get_elem?, get_or, if◌then◌else◌, leb, length, ltb, none, set, some, take, ℕ, ◌&&◌,
  ◌==◌, ◌∷◌,
}
use linux_file_manager.Gateway.{
  Env, GatewayCtx, GatewayDevice, Handler, cmd_gpio_control, cmd_sensor_data, cmd_stm32_register,
  dev_type_esp8266, dev_type_stm32, flag_response, gateway_register_handler, gateway_send_response,
  gpio_control, register, sensor_data,
}

-- The string that starts at these bytes.
unfoldable pub c_string : List ℕ → List ℕ
c_string [] = []
c_string (b ∷ bs) = if b == 0 then [] else b ∷ c_string bs

-- `sizeof(dev->dev_id)`
abbrev pub dev_id_size : ℕ
dev_id_size = 32

unfoldable pub register_id : GatewayDevice → List ℕ → ℕ → GatewayDevice
unfolding c_string
register_id d payload len =
    if ltb 0 len && ltb len dev_id_size
    then record d { dev_id = c_string (take len payload) }
    else d

unfoldable pub register_type : GatewayDevice → List ℕ → ℕ → GatewayDevice
register_type d payload len =
    if leb 2 len
    then if get_or payload 0 0 == b'S' && get_or payload 1 0 == b'T'
      then record d { dev_type = dev_type_stm32 }
      else if get_or payload 0 0 == b'E' && get_or payload 1 0 == b'S'
      then record d { dev_type = dev_type_esp8266 }
      else d
    else d

abbrev pub put_device : GatewayCtx → ℕ → GatewayDevice → GatewayCtx
put_device c i d = record c { devices = set c.devices i d }

module _ (env : Env) where
  pub respond : GatewayCtx → GatewayDevice → ℕ → ℕ → List ℕ → GatewayCtx
  unfolding gateway_send_response
  respond c d cmd seq bytes =
      (gateway_send_response env c d.fd cmd flag_response seq (some bytes) (length bytes)).1

  pub handle_sensor_data : GatewayCtx → GatewayDevice → ℕ → GatewayCtx
  unfolding respond
  handle_sensor_data c d seq = respond c d cmd_sensor_data seq (0x01 ∷ [])

  pub handle_register : GatewayCtx → ℕ → GatewayDevice → ℕ → List ℕ → ℕ → GatewayCtx
  unfolding register_id register_type respond
  handle_register c i d seq payload len =
      let d' = register_type (register_id d payload len) payload len in
      respond (put_device c i d') d' cmd_stm32_register seq (0x00 ∷ 0x01 ∷ [])

  pub handle_gpio_control : GatewayCtx → GatewayDevice → ℕ → GatewayCtx
  unfolding respond
  handle_gpio_control c d seq = respond c d cmd_gpio_control seq (0x01 ∷ [])

  pub call_on : GatewayCtx → Handler → ℕ → GatewayDevice → ℕ → List ℕ → ℕ → GatewayCtx
  unfolding handle_sensor_data handle_register handle_gpio_control
  call_on c sensor_data i d seq payload len = handle_sensor_data c d seq
  call_on c register i d seq payload len = handle_register c i d seq payload len
  call_on c gpio_control i d seq payload len = handle_gpio_control c d seq

  -- `node->handler(dev, …)`, where `dev` points at index `i`. An index behind the table is stale, when
  -- another thread has taken a device out: what the source does with the old record there is the step
  -- `reply_stale` of Gateway/Threads.
  unfoldable pub call_handler : GatewayCtx → Handler → ℕ → ℕ → List ℕ → ℕ → GatewayCtx
  unfolding call_on
  call_handler c h i seq payload len = elim (get_elem? c.devices i) [
    | none ↦ c
    | some d ↦ call_on c h i d seq payload len
  ]

-- What `gateway_server_menu` registers.
unfoldable pub register_handlers : GatewayCtx → GatewayCtx
unfolding gateway_register_handler
register_handlers c =
    gateway_register_handler
      (gateway_register_handler (gateway_register_handler c cmd_sensor_data sensor_data)
        cmd_stm32_register register)
      cmd_gpio_control gpio_control
