-- ===== src/Lib.antt =====
-- A model of the LXD CSI driver, which lets Kubernetes use the storage of an LXD cluster through the
-- devLXD API of the virtual machine it runs in, and theorems about it.
--
-- The parts of the program and their modules:
--   VolumeId    the IDs of volumes and snapshots: `getVolumeID`, `splitVolumeID`, `splitSnapshotID`
--               (internal/driver/driver.go).
--   Driver      the driver's state, `NewDriver`; Driver.Connect: `DevLXDClient`, the handler of token
--               changes, and `Connect` (internal/driver/driver.go, internal/devlxd/devlxd.go);
--               Driver.Connect.Rotation: writes of the token file, notices of the watcher and calls, in
--               any order; Driver.Connect.Rotation.Token: the token that a client carries; Driver.Run:
--               `Validate` and `Run`, from the check of the options to the server's end.
--   Command     cmd/lxd-csi/main.go: the flags, `run` and the error of `main`.
--   Controller  internal/driver/controller.go. Controller.Create (`CreateVolume`: Request is the part up
--               to the lock, Source the copies), Delete, Snapshot, Publish and Expand.
--               Controller.Store: the volumes of LXD as a set, which successful calls change.
--   Node        internal/driver/node.go, over Fs: internal/fs/fs.go (mounting and unmounting;
--               Fs.Mounting and Node.Mounting: the order of a successful publication's mounts;
--               Fs.Options: `ResolveMountOptions`; Fs.Watch: the loop of `WatchFile`).
--   Capabilities, LxdErrors, Utils, Identity
--               internal/driver/capabilities.go, internal/lxderrors/errors.go,
--               internal/utils/utils.go, internal/driver/identity.go.
--   Csi, Lxd    the messages of CSI and of the API, with the fields that the driver uses.
--   Rpc         how a method runs: it reads and changes the driver, the table of locks and the
--               environment, and ends with an answer, a status or a panic; Rpc.Frame and
--               Rpc.Retains: what its steps leave; Rpc.Invert: what is known of those of a method
--               that answered. Controller.Locks and Controller.Exclusion: the locks of the methods.
--   Strings, Strconv, FilePath, Dict
--               what the driver uses of Go's strings, strconv, path/filepath and maps, on bytes.
--   Base        shared names, results, integers. Tests: concrete environments, runs, and instances.
--
-- How they interact: the command makes a driver from its flags and calls `Run`, which connects, watches
-- the token file and serves. A controller method asks `DevLXDClient` for a client, splits or builds an
-- ID, takes the lock of the ID, calls LXD through the client, and gives the lock back when it returns.
-- Code outside the repository is a parameter: `Lxd.Env` has the devLXD client, the errors' tests, the
-- lock table and the reading of files; `Lxd.IsLocking` states what `locking.TryLock` documents;
-- `Host.Host` has the node's files and mounts, `Driver.Run.Server` the validator of host names
-- (`IsValidator` states the lengths it documents), the watcher, the socket and the gRPC server. A call
-- may answer in any way and change its state in any way, so the theorems hold whatever LXD and others
-- do between two calls. Only those of Controller.Store ask for more, and those of
-- Driver.Connect.Rotation, for which `IsTokenFile` states that a client carries the token that it was
-- made with or given last and that a connection leaves the file alone. `IsStore` states that LXD keeps
-- a set of volumes, that a request to create or delete one which ended without an error has changed it,
-- and that other requests leave it, with no one else at work.
--
-- Conventions: a Go string is a list of bytes; an `int64` is an integer, with its range where a number
-- is parsed; a pointer that may be nil is an `Option`, but a nil map is an empty one; a pointer
-- answered without an error is not nil; a status keeps its code and the format of its message, not the
-- values. A method of the driver that holds its mutex is one step, but in Driver.Connect.Rotation,
-- where a `DevLXDClient` reads the file in one step and connects in a later one; `pending` there says
-- that a notice is on its way, and is in no variable of the program. `Unmount` makes at most 20 rounds,
-- which its loop counts down. `format_uint` prints `n` with `n + 1` steps, more than its digits.
--
-- Not modelled: the parsing of flags (`flag.Parse`), the logging, how the gRPC server hands requests to
-- the methods, the symbolic link that `WatchFile` resolves before its loop, the time in a snapshot's
-- answer, and the end-to-end tests (test/e2e).
pub mod Base
pub mod Strings
pub mod VolumeId
pub mod Strconv
pub mod Dict
pub mod Csi
pub mod Capabilities
pub mod Lxd
pub mod LxdErrors
pub mod FilePath
pub mod Utils
pub mod Driver
pub mod Rpc
pub mod Controller
pub mod Host
pub mod Fs
pub mod Node
pub mod Identity
pub mod Command
pub mod Tests
