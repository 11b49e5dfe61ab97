-- ===== src/Lib.antt =====
-- cloudable: the control plane's core, modelled and proved.
--
-- The control plane (apps/control-plane) governs persistent cloud machines. Sensitive actions go
-- through one approval object; access to a machine of somebody else goes through an elevation that
-- rests on an approval; settings and package manifests are resolved along a chain of scopes. A
-- machine ends by being archived, with a snapshot of its disks that is kept for a time, can be
-- restored under an approval, and is then deleted; the machines of a person who leaves are archived
-- by the offboarding.
--
-- Parts and files:
--   * Setting: packages/schema/src/resolve-setting.ts, the chain org, template, machine.
--   * Manifest: apps/control-plane/src/domain/machine/manifest.ts (resolveManifest,
--     declaredPackages, findPinConflicts, computeUndeclaredPackages), built on Setting.
--   * Audit, Database: the enumerations and tables of packages/schema/src/tables (approval.ts,
--     elevation.ts, notification.ts, setting.ts) and the events of packages/events.
--   * Approval: apps/control-plane/src/services/ApprovalService.ts. Approval has the types,
--     `resolve_approval_mode` (resolveApprovalMode), `auto_approve`, `request` and
--     `request_auto_approved`; Approval/Decide has `decide`, `status` and
--     `expire_overdue_approvals`; Approval/Listing has `list_approvals` (list) with its cursor. The
--     other children are proofs.
--   * Elevation: apps/control-plane/src/domain/elevation. Elevation has policy.ts and the checks of
--     `request` (`admit`), Elevation/Service the rest of `request` (`request_elevation`), and
--     Elevation/Sync has `sync_approval`, `expire`, `get` and `expire_overdue_elevations`. The
--     repository of ElevationRepo.live.ts is written out over the tables.
--   * PackageActions: apps/control-plane/src/domain/machine/package-actions.ts
--     (`enqueue_package_action` is enqueuePackageAction, and so on). PackageActions/Names has the
--     package names of packages/contracts/src/domains/agent-protocol.ts; the other children are
--     proofs.
--   * Archive: apps/control-plane/src/domain/archive/sub-state.ts and approval-escalation.ts; a
--     restore's floor goes to `request` of Approval.
--   * Tunnel: apps/control-plane/src/tunnel/registry.ts, and of
--     apps/control-plane/src/http/handlers/tunnel.ts what a daemon's connection does to the
--     registry (`connect`, `disconnect`). Tunnel/Histories has the step relation; the rest are
--     proofs.
--   * SnapshotFs: apps/control-plane/src/snapshot-fs, the reader of an ext4 file system in a
--     snapshot. SnapshotFs/Readers and SnapshotFs/Cache are range-reader.ts, Geometry is
--     ext4/superblock.ts, group.ts and inode.ts, Extents is extents.ts, Directory is dir.ts, Paths
--     and Filesystem are filesystem.ts, and Filesystem/Session is `openExt4Filesystem`. A reader
--     (`RangeReader`) is the interface between them; what it promises (`ReadsExactly`, `Serves`) is
--     in SnapshotFs/Outcome, with the rules for the steps of a parser.
--   * Lifecycle: the tables of machines, snapshots, restore requests and certificates, the events
--     and the port `Provisioning` (services/ProvisioningService.ts) that the next three share, and
--     the lookups of apps/control-plane/src/domain/archive/queries.ts. Lifecycle/Samples has test
--     data.
--   * Snapshots: of apps/control-plane/src/domain/archive, Snapshots has `create_snapshot`,
--     `set_legal_hold` and `clear_legal_hold` (snapshot.ts) and `resolve_retention_days`
--     (org-policy.ts), Snapshots/Sweeps has `expire_overdue_snapshots` and
--     `detect_missing_snapshot_data`, and Snapshots/Archiving has `archive_machine` (archive.ts).
--   * Restore: perform-restore.ts of the same directory; Restore/Checks has `restore_snapshot`
--     (restore.ts), from its checks to the approval of `request` in Approval and on to the
--     provider, and Restore/Resume has `resume_restore`. The other children are proofs.
--   * Offboarding: apps/control-plane/src/domain/offboarding/offboardPerson.ts with its repository
--     and domain/certificates/revokeCertificate.ts. Offboarding has the steps on people and
--     certificates, Offboarding/Sequence those on machines, `offboard_person_detailed` and
--     `resume_offboarding`; they call `request` and `status` of Approval and `archive_machine` of
--     Snapshots/Archiving.
--   * Retention: apps/control-plane/src/domain/retention, the windows of policy.ts and the sweep of one
--     organisation's events (sweep.ts); Retention/Scans has domain/vulnerability-scan/retention.ts,
--     and Retention/Pass `expireEventsPastRetention`, which runs both for each organisation.
--   * MachineEvents: `deriveEvents` of apps/control-plane/src/domain/machine/events.ts.
--
-- A call takes an `Env` with what its effects read from outside and the tables, and returns its
-- result with the tables after it. `Env` has the clock (read once for a call, where the source may
-- read it again within a transaction), generated ids, and for each database access or event
-- publication whether it fails; a failure of one transaction writes nothing, and a failure of a
-- later step of a call leaves what the earlier steps wrote, as in the source. An insert under an id
-- that is taken fails. Of two lookups that run at once and both fail, `machine_first` says which
-- error is reported.
--
-- Simplifications: UUIDs are numbers that are only compared; times are milliseconds as natural
-- numbers; free text is a list of UTF-16 code units, for `trim`; a table has no order of its own,
-- and the newest row stands first; the values of the settings table stand in two lists, for modes
-- and for numbers, since no key has both; a sweep gives its events one correlation id, where the
-- source draws one for each; an event's own id and recording time, a decision's id and time and the
-- text of a notification are left out; a history is a sequence of whole calls, one after another:
-- the row locks of `decide` make its calls so, while other calls, such as enqueuePackageAction with
-- its check before the transaction, may overlap in the source, which is outside the model.
-- `localeCompare` is a parameter. In Tunnel a JavaScript `Map` is a list of entries in the order of
-- insertion, sockets and deferred values are numbers, what the registry does to sockets is recorded
-- as a list of effects, and an operation runs to its end before the next. A cursor's base64, dates
-- and identifiers as text are parameters, with their laws in `CodecLaws`.
--
-- In Snapshots, Restore and Offboarding the providers are the record `Provisioning` over an unknown
-- state, which a call may change also where it fails; `MachineService.create` is a parameter in the
-- same way. What a theorem needs of them is a hypothesis: `CopyLaws` (Snapshots/Cloud), that a
-- deletion which is answered has taken place and touches no other copy, and `TearDownLaws`
-- (Offboarding/Emptied), that nothing is left to copy of a machine that was torn down. `Env` names
-- the writes and publications that fail by the id of their row. Of a machine's row the columns
-- stand in the model that these parts read or write; the texts of errors and of `lastError` are
-- left out, as are the malware protection that a restored machine is handed and everything of the
-- end of live sessions but whether it fails.
--
-- In SnapshotFs an image does not change, so a reader is a function, and a cache is handed from one
-- read to the next. Bytes are natural numbers; numbers are exact, as the source's are below 2 ^ 53,
-- and buffers of any size can be had. An access outside a buffer is the error `range_error`. File
-- handle, HTTP client, TextDecoder, posix.normalize, posix.join and localeCompare are parameters.
-- Fuel: a read through the cache has as many rounds as bytes are wanted, since each round copies
-- one at least; the walk of an extent tree one round more than the nodes that it may read, since it
-- counts each; the walk of a directory's block as many rounds as the block has bytes, since a
-- record takes eight; a lookup is recursive in the depth of links that is left. `out_of_fuel`
-- stands for a lack of rounds, and the theorems on termination exclude it. All other functions are
-- structurally recursive.
--
-- Not modelled: the listing and the inspection of snapshots; the other domains of the control plane
-- (the lifecycle of machines over a cloud provider, upgrade, the scheduling and the intake of
-- vulnerability scans, compliance, provisioning), the HTTP layer, the console, the command line,
-- the agent and the tunnel daemon.
pub mod Base
pub mod Setting
pub mod Manifest
pub mod Audit
pub mod Database
pub mod Approval
pub mod Elevation
pub mod PackageActions
pub mod Archive
pub mod Tunnel
pub mod SnapshotFs
pub mod MachineEvents
pub mod Lifecycle
pub mod Snapshots
pub mod Offboarding
pub mod Restore
pub mod Retention
