-- ===== src/Codex/Policy.antt =====
-- codex_engine.rs and permissions.rs: what a permission mode asks of the app-server, how an approval is
-- presented, and the title of a session.
use portcode.Common.{
  false, List, [], ◌∷◌, ◌++◌, Option, none, some, if◌then◌else◌, unwrap_or, ltb, length, take, Text,
  codes, same,
}
use portcode.Public.{is_whitespace}
use portcode.Codex.Json.{Value, null, bool, string, array, object, nil, end, field, get}
use portcode.Codex.Items.{str_of}

pub data PermissionMode : Type 0 where
  default : PermissionMode
  accept_edits : PermissionMode
  plan : PermissionMode
  auto : PermissionMode
  bypass : PermissionMode

module _ {Number : Type 0} where
  -- The approval policy, the sandbox mode, and the reviewer of approvals.
  unfoldable pub codex_permissions : PermissionMode → Value Number × Value Number × Option Text
  codex_permissions bypass = (string (codes "never"), string (codes "danger-full-access"), none)
  codex_permissions plan = (string (codes "never"), string (codes "read-only"), none)
  codex_permissions auto =
      (string (codes "on-request"), string (codes "workspace-write"), some (codes "auto_review"))
  codex_permissions accept_edits =
      (string (codes "on-request"), string (codes "workspace-write"), none)
  codex_permissions default = (string (codes "untrusted"), string (codes "workspace-write"), none)

  abbrev pub workspace_policy : Value Number
  workspace_policy = object (
      field (codes "excludeSlashTmp") (bool false) (
        field (codes "excludeTmpdirEnvVar") (bool false) (
          field (codes "networkAccess") (bool false) (
            field (codes "type") (string (codes "workspaceWrite"))
              (field (codes "writableRoots") (array nil) end)))))

  unfoldable pub codex_sandbox_policy : PermissionMode → Value Number
  codex_sandbox_policy bypass =
      object (field (codes "type") (string (codes "dangerFullAccess")) end)
  codex_sandbox_policy plan = object (
      field (codes "networkAccess") (bool false)
        (field (codes "type") (string (codes "readOnly")) end))
  codex_sandbox_policy default = workspace_policy
  codex_sandbox_policy accept_edits = workspace_policy
  codex_sandbox_policy auto = workspace_policy

  -- A tool's name, a summary, the input that is shown, and a diff.
  unfoldable pub approval_presentation :
      Text → Value Number → Text × Text × Value Number × Option Text
  approval_presentation method params =
      let command = unwrap_or (str_of (codes "command") params) (codes "command") in
      if same method (codes "item/commandExecution/requestApproval")
      then (
        codes "run_command",
        command,
        object (
            field (codes "availableDecisions")
              (unwrap_or (get (codes "availableDecisions") params) null)
              (field (codes "command") (string command) (
                field (codes "cwd") (unwrap_or (get (codes "cwd") params) null)
                  (field (codes "reason") (unwrap_or (get (codes "reason") params) null) end)))),
        none,
      )
      else if same method (codes "item/fileChange/requestApproval")
      then (
        codes "edit_file",
        unwrap_or (str_of (codes "reason") params) (codes "proposed file changes"),
        params,
        none,
      )
      else (
        codes "codex_permissions",
        unwrap_or (str_of (codes "reason") params) (codes "additional permissions"),
        unwrap_or (get (codes "permissions") params) params,
        none,
      )

abbrev pub session_channel : Text → Text
session_channel session_id = codes "agent://" ++ session_id

-- `split_whitespace`, with the word read so far.
abbrev pub push_word : Text → List Text → List Text
push_word [] words = words
push_word (c ∷ cs) words = (c ∷ cs) ∷ words

unfoldable pub words_from : Text → Text → List Text
words_from word [] = push_word word []
words_from word (c ∷ cs) =
    let fresh = words_from [] cs in
    let longer = words_from (word ++ (c ∷ [])) cs in
    if is_whitespace c then push_word word fresh else longer

abbrev pub join_spaces : List Text → Text
join_spaces [] = []
join_spaces (w ∷ []) = w
join_spaces (w ∷ v ∷ ws) = w ++ b' ' ∷ join_spaces (v ∷ ws)

abbrev pub title_of : Text → Text
title_of title =
    if ltb 64 (length title)
    then take 61 title ++ codes "..."
    else if same title []
    then codes "New chat"
    else title

unfoldable pub derive_title : Text → Text
derive_title text = title_of (join_spaces (take 7 (words_from [] text)))
