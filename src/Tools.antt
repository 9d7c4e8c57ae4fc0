-- ===== src/Tools.antt =====
-- src-tauri/src/tool_names.rs: stable names for the tools exposed to language models.
use portcode.Common.{List, [], ◌∷◌, if◌then◌else◌, Text, codes, same}

abbrev pub read_file : Text
read_file = codes "read_file"

abbrev pub list_directory : Text
list_directory = codes "list_directory"

abbrev pub find_files : Text
find_files = codes "find_files"

abbrev pub search_text : Text
search_text = codes "search_text"

abbrev pub write_file : Text
write_file = codes "write_file"

abbrev pub edit_file : Text
edit_file = codes "edit_file"

abbrev pub run_command : Text
run_command = codes "run_command"

abbrev pub delegate_task : Text
delegate_task = codes "delegate_task"

abbrev pub canonical_names : List Text
canonical_names =
    read_file ∷ list_directory ∷ find_files ∷ search_text ∷ write_file ∷ edit_file ∷ run_command
    ∷ delegate_task ∷ []

unfoldable pub canonical : Text → Text
unfolding same
canonical name =
    if same name (codes "fs_read")
    then read_file
    else if same name (codes "list")
    then list_directory
    else if same name (codes "glob")
    then find_files
    else if same name (codes "grep")
    then search_text
    else if same name (codes "fs_write")
    then write_file
    else if same name (codes "fs_edit")
    then edit_file
    else if same name (codes "shell")
    then run_command
    else if same name (codes "task")
    then delegate_task
    else name
