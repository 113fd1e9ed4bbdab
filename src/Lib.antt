-- ===== src/Lib.antt =====
-- Five programs of the repository, modelled over native numbers and texts as lists of code points.
--
-- packages/operator-secrets collects the secrets of a host. At boot its daemon looks at the env-file
-- of each secret of a spec, has its validator judge the stored values, asks an operator for the
-- values that are missing or rejected, and writes what the validator accepts.
--   * Secrets/Spec: Spec::parse, is_valid_key and parse_mode of src/lib.rs.
--   * Secrets/Env: encode_env_value, encode_env_file, parse_env_file, check_field_value.
--   * Secrets/Stored: classify_stored, prompt_fields, accept_submission.
--   * Secrets/Verdict, Secrets/Passwd: parse_validator_output, lookup_id.
--   * Secrets/Daemon/Ui, Ask: the hub of src/bin/daemon.rs, whose state is the snapshot with the
--     snapshots sent so far; a prompt waits for the messages of the clients.
--   * Secrets/Daemon/Validator: the request to the validator, the verdict on its run, redact_values.
--   * Secrets/Daemon/Disk: write_secret, a system call at a time; a list of outcomes says which calls
--     fail, and a history keeps the files as each call leaves them.
--   * Secrets/Daemon/Satisfy: validate_until_decided, prompt_until_accepted, satisfy, the boot
--     session and the edit session, as functions of a world (the hub, the runs of validators still to
--     come, the disk) into how far they get: to their end, to a wait, to an error.
-- The daemon's loops take fuel: one for each round. A round of prompting takes a message and a round
-- of validation takes a run, so that their number bounds the rounds (Satisfy/Ends).
--
-- packages/hypr-workspaced keeps the monitors of a Hyprland session on the same virtual workspace.
--   * Hypr/Ids, Registry, Layout: VirtualWorkspace, MonitorSlot, MonitorRegistry and MonitorLayout of
--     src/workspace.rs. A u8 is taken modulo 256, a Hyprland number is an integer. The registry's file
--     carries how its next saves go.
--   * Hypr/Data, Session: the answers of Hyprland and the queries of src/query.rs, with the errors
--     of src/error.rs. The exchange over the socket and the JSON readers are a record of functions
--     over a state of Hyprland, which every handler passes on.
--   * Hypr/Manager, and Manager/Assign, Sync, Swap: the operations of WorkspaceManager. Each is a
--     sequence of exchanges; an error ends it where the source has `?`, and is passed over where the
--     source only warns. Manager/Placed states what a compositor does to the windows, and Manager/Asked
--     what a log of the requests keeps, for the theorems about them.
--   * Hypr/Window, Request, Ipc: src/window.rs, src/request.rs, src/ipc.rs.
--   * Hypr/Daemon: handle_command and the main loop of src/daemon.rs. A run is a list of events, in any
--     order: commands, changes of the monitors, changes of the workspace, which overwrite each other in
--     the watch channel, and the notices of them.
--   * Hypr/Listener: the task that listens to Hyprland and restarts a service.
--   * Hypr/Client: handle_client of src/daemon.rs, src/client.rs and src/main.rs.
--
-- packages/var-disk-manager prepares the disk of /var in the initrd: it unlocks the encrypted volume,
-- provisions a blank one, or migrates an unencrypted one.
--   * VarDisk/Classify: Identity, DiskProbe, classify, plan, parse_confirm, mapper_fs_from_blkid,
--     split_prefix_glob and parse_btrfs_used of src/lib.rs.
--   * VarDisk/World, Host, Commands: the hub, the prompts and the subprocess helpers of
--     src/bin/daemon.rs. A host answers every command, look at a path and system call, with a state of
--     its own; a trace keeps the commands with their outcomes, the looks and the operator's answers.
--   * VarDisk/Format, Unlock, Migrate, Run: format_encrypted and provision, unlock and ensure_label,
--     migrate with the pump of copy_with_progress, and run with the probes and the dispatch. Each is a
--     step from a world to its end, a block that lasts, a wait for an answer or an error.
-- A loop that asks has fuel for one more round than there are messages, and each round takes one
-- (Safety/Answers). Sums of u64 wrap. What the messages on the screen say is data, not text.
--
-- packages/oidc-credential-validator proves OIDC client credentials good, bad or undecidable.
--   * Oidc/Args, Verdict, Run: parse_args, the verdict and main of src/main.rs.
--   * Oidc/Encode: form_urlencode and base64, on the bytes of a text.
--   * Oidc/Requests, Check: the discovery, the methods, the requests and the verdicts on their answers.
--     The agent answers each request by all that was exchanged before, and a check keeps what it
--     exchanged.
--
-- packages/nsw2-service bridges a game controller to a virtual gamepad.
--   * Nsw2/Report, Gamepad: src/report.rs, src/rumble.rs, and emit_state of src/bridge.rs. An
--     index past the end of a slice is an error of its own.
--   * Nsw2/Effects: process_ff of src/bridge.rs, event by event.
--
-- Parameters: the HTTP agent, the readers of JSON, what the validator answers to its command line and
-- its request, the outcomes of system calls and of the saves of the registry of monitors, the messages
-- of the clients, Hyprland, and the host of var-disk-manager. Not modelled: sockets and tasks (that of
-- the fingerprint too), locks (a handler runs to its end), logging, the terminal clients, the waits of
-- hypr-workspaced, the threads, the handshake and the virtual device of nsw2-service, and the other
-- packages and the Nix modules of the repository.
pub mod Base
pub mod Secrets
pub mod Hypr
pub mod VarDisk
pub mod Oidc
pub mod Nsw2
