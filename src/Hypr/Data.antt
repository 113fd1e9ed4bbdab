-- ===== src/Hypr/Data.antt =====
-- packages/hypr-workspaced/src/query.rs: the state that Hyprland answers with, by the fields that
-- the program reads. The types are those of the hyprland crate; its addresses are their texts.
use foundrix.Base.{Bool, Option, Text, ℤ}
use foundrix.Hypr.Ids.{WorkspaceId}

pub record Monitor : Type 0 where
  pub id : ℤ
  pub name : Text
  pub description : Text
  pub x : ℤ
  pub active_workspace : WorkspaceId
  pub focused : Bool

pub record Client : Type 0 where
  pub address : Text
  pub at_x : ℤ
  pub at_y : ℤ
  pub size_w : ℤ
  pub size_h : ℤ
  pub workspace : WorkspaceId
  pub floating : Bool
  pub fullscreen : Bool
  pub monitor : Option ℤ
  pub class : Text
  pub title : Text
  pub initial_class : Text
  pub initial_title : Text
  pub pid : ℤ

pub record Workspace : Type 0 where
  pub id : WorkspaceId
  pub monitor : Text

pub record CursorPosition : Type 0 where
  pub x : ℤ
  pub y : ℤ
