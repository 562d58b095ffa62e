-- ===== src/Lib.antt =====
-- sshc, the local manager of OpenSSH client configuration: its parser, its edits of lines, the
-- sessions and confirmations of its local server, its journalled transactions, its vault, its
-- include graph and groups, and its host keys.
--
-- The parts. internal/config reads an ssh_config file into lines that keep every byte
-- (Config.Token, Config.Line, Config.Parse), groups the lines into blocks (Config.Block) and
-- handles the comment on top of a block (Config.Comment). internal/application/edit.go checks and
-- changes its lines (Edit.Build, Edit.Lines, Edit.Fields, Edit.Header, Edit.Rename).
-- internal/session admits a browser once and gives out confirmations for dangerous operations
-- (Session.Manager, Session.Action; Session.Reach runs the methods in any order). internal/storage
-- writes several files through a journal (Storage.Request, Storage.Planning and Storage.Commit
-- plan its entries; Storage.Record, Storage.World, Storage.Apply) and completes or rolls back what
-- was interrupted (Storage.Recover). internal/secret/vault.go names credentials and lets hosts and
-- keys refer to them (Secret.Vault). internal/remotesync/plan.go plans what a pull changes and
-- removes (RemoteSync.Plan). internal/config/include.go and graph.go expand the patterns of
-- Include lines and walk the files that they match (Config.Include, Config.Graph);
-- internal/effective reads the graph in the order of loading (Effective.Reading,
-- Effective.Provenance) and expands the jump routes of a host (Effective.Chain, Effective.Jump),
-- with the matching of patterns in Glob, and finds the commands that it runs (Effective.Danger).
-- internal/knownhosts reads, searches and changes the file of host keys (KnownHosts.File,
-- KnownHosts.Change). internal/application/grouppath.go, region.go and groups.go keep groups as
-- directories that a region of generated lines includes (Groups.Path, Groups.Region,
-- Groups.Declaration). Base has what they share: byte strings, lists, Go maps as association
-- lists, results. Tests runs them at concrete inputs.
--
-- The correspondence. A function keeps its name in another spelling: splitArguments is
-- split_arguments, ConsumeAction is consume_action. A method that changes its receiver takes the
-- old state and returns the new one. A failing call is err of the package's error. A loop of the
-- source is a recursion of its own, named in the comment above it. Texts are lists of bytes.
--
-- Fuel. split_loop runs on the length of the text plus one, where unfinished stands for fuel that
-- runs out, and parse_loop on the length of the file. Each round of split_loop but the last takes
-- a byte, and so does each line that parse_loop reads, so the fuel is enough. match_loop runs on
-- the product of the two lengths, each plus one, since a star is passed again at most once for
-- each byte of the text. walk_load_order runs on the number of files plus one, since no file
-- stands twice in a chain. The walk of the include graph and the expansion of a route recur on the
-- depth that is left, 16 and 8 by default.
--
-- The disk of Storage.World performs one operation at a time and stops for good when its budget is
-- spent, which stands for a process that is killed or a disk that fails at any moment. A path is
-- its clean absolute text, and a journal document is replaced as a whole. The disk is simpler than
-- a file system in these ways: a file is written in one operation, so no staged copy of it is left;
-- the synchronisation of a directory fails only where the disk does; a rename moves the one node and
-- does not look for the directory of its target, since the journal renames files into directories
-- that were checked; the root is there; a directory has one mode.
--
-- Letters and white space are those of ASCII: to_lower and trim_space leave the other letters and
-- spaces of Unicode, which strings.ToLower and strings.TrimSpace would change.
--
-- Parameters, since their code is outside the repository: the hash of tokens and of contents, the
-- encoding of random bytes, the opening of a sealed backup, the path on the disk of a path of a
-- manifest, the loader of files and its patterns, base64 and the fingerprints of host keys.
--
-- Not modelled: the backups and the staging of a transaction, the sealing of the vault and the
-- service around it, the scan for host keys, the network side of the remote synchronisation, the
-- view and the renaming of groups, key files, the evaluation by ssh, the http server and the web
-- interface.
pub mod Base
pub mod Config
pub mod Edit
pub mod Session
pub mod Storage
pub mod Secret
pub mod Tests
pub mod RemoteSync
pub mod Glob
pub mod KnownHosts
pub mod Groups
pub mod Effective
