-- ===== src/Controller/LoginConfig.antt =====
-- `LoginConfigHandler` of KdDeskTC_Client/src/client.rs: the settings of a session with one peer, and
-- the messages that tell the peer of them. The files of all peers are part of the state.
mod Stored
mod Toggles
mod Messages
pub use kd_desk_tc.Controller.LoginConfig.Stored.{LoginConfigHandler, Desk}
unfoldable pub use kd_desk_tc.Controller.LoginConfig.Stored.{
  new, load_config, initialize, store_config, save_config, set_option, save_view_style, get_option,
}
unfoldable pub use kd_desk_tc.Controller.LoginConfig.Toggles.{
  no_option, yes_or_no, option_message, toggle_cursor, toggle_audio, toggle_clipboard, toggle_lock,
  toggle_privacy, toggle_files, save_toggled, toggle_other, toggle_option, get_toggle_option,
}
pub use kd_desk_tc.Controller.LoginConfig.Toggles.{
  name_cursor, name_audio, name_clipboard, name_lock, name_privacy, name_files, name_block,
  name_unblock, Toggled,
}
unfoldable pub use kd_desk_tc.Controller.LoginConfig.Messages.{
  get_image_quality_enum, pack_quality, custom_quality, quality_option, only_yes, filled_options,
  any_option, get_option_message, refresh, save_custom_image_quality, save_image_quality,
  get_username, version_from, get_version_number, kept_password, handle_peer_info, get_remote_dir,
  get_all_remote_dir, login_union, create_login_msg,
}
