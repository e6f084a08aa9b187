-- ===== src/Controller/LoginConfig/Messages.antt =====
-- The messages that tell the peer of the settings, and what the peer answers.
-- the messages that tell the peer of them. The files of all peers are part of the state.
use Prim.Native.Nat.{bit_or}
use kd_desk_tc.Prelude.{
  ℕ, ◌+◌, ◌*◌, ◌%◌, ◌^◌, Bool, true, false, not, ◌&&◌, ◌||◌, Option, none, some, List, [], ◌∷◌,
  ◌==◌, nat_eq, list_eq, if◌then◌else◌,
}
use kd_desk_tc.Strings.{bytes, split}
use kd_desk_tc.Proto.{Text}
use kd_desk_tc.HashMap
use kd_desk_tc.HashMap.{HashMap}
use kd_desk_tc.Client.Proto.{Message, Misc, OptionMessage, LoginRequest, LoginUnion, PeerInfo}
use kd_desk_tc.Controller.PeerConfig.{PeerConfig}
use kd_desk_tc.Controller.LoginConfig.Stored.{
  load_config, save_config, get_option, LoginConfigHandler, Desk,
}
use kd_desk_tc.Controller.LoginConfig.Toggles.{
  name_cursor, name_audio, name_clipboard, name_lock, name_privacy, name_files, no_option,
  option_message, get_toggle_option,
}

-- The number of an `ImageQuality`.
unfoldable pub get_image_quality_enum : Text → Bool → Option ℕ
get_image_quality_enum q ignore_default =
    if q == bytes "low"
    then some 2
    else if q == bytes "best"
    then some 4
    else if q == bytes "balanced"
    then if ignore_default then none else some 3
    else none

-- `bitrate << 8 | quantizer`, on the bits of an `i32`.
unfoldable pub pack_quality : ℕ → ℕ → ℕ
pack_quality bitrate quantizer = bit_or (bitrate * 256 % 2 ^ 32) quantizer

unfoldable pub custom_quality : List ℕ → Option ℕ
custom_quality [] = none
custom_quality (bitrate ∷ []) = none
custom_quality (bitrate ∷ quantizer ∷ rest) = some (pack_quality bitrate quantizer)

-- The quality that the message names, and the custom quality.
unfoldable pub quality_option : Bool → LoginConfigHandler → Option (ℕ × ℕ)
quality_option ignore_default lc =
    let custom = custom_quality (load_config lc).custom_image_quality in
    elim (get_image_quality_enum lc.config.image_quality ignore_default) [
      | some q ↦ some (q, 0)
      | none ↦
          if lc.config.image_quality == bytes "custom"
          then elim custom [ none ↦ none | some q ↦ some (0, q) ]
          else none
    ]

-- The number of an option that is told only where it is set.
unfoldable pub only_yes : Bool → ℕ
only_yes true = 2
only_yes false = 0

unfoldable pub filled_options : Option (ℕ × ℕ) → LoginConfigHandler → OptionMessage
filled_options quality lc = record {
  image_quality = elim quality [ none ↦ 0 | some q ↦ q.0 ];
  lock_after_session_end = only_yes (get_toggle_option lc name_lock);
  show_remote_cursor = only_yes (get_toggle_option lc name_cursor);
  privacy_mode = only_yes (get_toggle_option lc name_privacy);
  block_input = 0;
  custom_image_quality = elim quality [ none ↦ 0 | some q ↦ q.1 ];
  disable_audio = only_yes (get_toggle_option lc name_audio);
  disable_clipboard = only_yes (get_toggle_option lc name_clipboard);
  enable_file_transfer = only_yes (get_toggle_option lc name_files);
}

-- Whether the source has counted an option.
unfoldable pub any_option : Option (ℕ × ℕ) → LoginConfigHandler → Bool
any_option quality lc =
    elim quality [ none ↦ false | some q ↦ true ]
    || get_toggle_option lc name_cursor
    || get_toggle_option lc name_lock
    || get_toggle_option lc name_privacy
    || get_toggle_option lc name_audio
    || get_toggle_option lc name_files
    || get_toggle_option lc name_clipboard

unfoldable pub get_option_message : Bool → LoginConfigHandler → Option OptionMessage
get_option_message ignore_default lc =
    if lc.is_port_forward || lc.is_file_transfer
    then none
    else (let quality = quality_option ignore_default lc in
        if any_option quality lc then some (filled_options quality lc) else none)

unfoldable pub refresh : Message
refresh = Message.misc (Misc.refresh_video true)

unfoldable pub save_custom_image_quality :
    Desk → ℕ → ℕ → LoginConfigHandler → LoginConfigHandler × Message
save_custom_image_quality d bitrate quantizer lc =
    let config : PeerConfig = record (load_config lc) {
      image_quality = bytes "custom";
      custom_image_quality = bitrate ∷ quantizer ∷ [];
    } in
    (
      save_config d config lc,
      option_message (record no_option { custom_image_quality = pack_quality bitrate quantizer }),
    )

unfoldable pub save_image_quality :
    Desk → Text → LoginConfigHandler → LoginConfigHandler × Option Message
save_image_quality d value lc = (
  save_config d (record (load_config lc) { image_quality = value }) lc,
  elim (get_image_quality_enum value false) [
    | none ↦ none
    | some q ↦ some (option_message (record no_option { image_quality = q }))
  ],
)

unfoldable pub get_username : LoginConfigHandler → PeerInfo → Text
get_username lc pi = if pi.username == [] then lc.config.info.username else pi.username

unfoldable pub version_from : Desk → ℕ → List Text → ℕ
version_from d n [] = n
version_from d n (x ∷ xs) =
    version_from d ((n * 1000 + elim (d.parse_i64 x) [ none ↦ 0 | some k ↦ k ]) % 2 ^ 64) xs

unfoldable pub get_version_number : Desk → Text → ℕ
get_version_number d v = version_from d 0 (split b'.' v)

-- The password that is kept once a peer has answered.
unfoldable pub kept_password : LoginConfigHandler → Text → Text
kept_password lc stored =
    if lc.remember
    then if not (lc.password == []) && not (lc.password == stored) then lc.password else stored
    else []

unfoldable pub handle_peer_info : Desk → Text → PeerInfo → LoginConfigHandler → LoginConfigHandler
handle_peer_info d username pi lc =
    let lc : LoginConfigHandler = record lc {
      version = if pi.version == [] then lc.version else get_version_number d pi.version;
    } in
    let config = load_config lc in
    save_config d
      (record config {
        info = record {
          username = username;
          hostname = pi.hostname;
          platform = pi.platform;
          uid = pi.uid;
        };
        password = kept_password lc config.password;
      })
      lc

unfoldable pub get_remote_dir : Desk → LoginConfigHandler → Text
get_remote_dir d lc =
    elim (HashMap.get (d.from_json (get_option lc (bytes "remote_dir"))) lc.config.info.username) [
      | none ↦ []
      | some dir ↦ dir
    ]

unfoldable pub get_all_remote_dir : Desk → Text → LoginConfigHandler → Text
get_all_remote_dir d path lc =
    let x = d.from_json (get_option lc (bytes "remote_dir")) in
    let user = lc.config.info.username in
    d.to_json (if path == [] then HashMap.remove x user else HashMap.insert x user path)

-- What the session is for. A session for files comes before a port forwarding.
unfoldable pub login_union : Desk → LoginConfigHandler → LoginUnion
login_union d lc =
    if lc.is_file_transfer
    then LoginUnion.file_transfer (record {
      dir = get_remote_dir d lc;
      show_hidden = not (get_option lc (bytes "remote_show_hidden") == []);
    })
    else if lc.is_port_forward
    then LoginUnion.port_forward (record { host = lc.port_forward.0; port = lc.port_forward.1 })
    else LoginUnion.unset

unfoldable pub create_login_msg : Desk → Text → LoginConfigHandler → LoginRequest
create_login_msg d password lc = record {
  username = lc.id;
  password = password;
  my_id = d.config_id;
  my_name = d.username;
  option = get_option_message true lc;
  union = login_union d lc;
  video_ack_required = false;
  my_uid = d.config_uid;
}
