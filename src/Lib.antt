-- ===== src/Lib.antt =====
-- A model of the tc-firewall daemon of this repository, in tc-firewall/src, and of the traffic
-- generator and the receiver that test it, in traffic-gen/src and receiver/src. The daemon runs on a
-- DPU, takes firewall and NAT rules over HTTP and programs them into the hardware by `tc`.
--
-- The parts, and how they work together:
-- - Snat: snat_state.py, the port pools of masquerade SNAT. A state of three dicts and the pool size;
--   `allocate_port`, `release_port`, `release_expired`, `get_pool_stats`, `is_exhausted` and
--   `get_utilization` are functions of the same names. nat_manager.py calls it.
-- - Ha: ha.py, one node of the active/standby pair as a state machine: `receive_heartbeat`,
--   `promote`, `demote`, `monitor_round` for one turn of `_heartbeat_monitor`, `heartbeat` for what
--   `_heartbeat_sender` posts. Ha/Exchange lets two nodes hear one another; a
--   heartbeat carries what its sender was when it was sent, so two may cross.
-- - Tc: tc_manager.py, the commands. The kernel is a parameter: a world of any type, and what running
--   `tc` with given arguments does to it and answers. Tc/TwoSided has a kernel that notes commands.
--   Tc/Stats reads the reports of `tc filter show`, and Tc/Stats/Blocks says what is in them.
-- - Nat: nat_manager.py, over Tc and Snat: the rules in `nat_db`, the index of their signatures, the
--   ports and the world are one state; the functions have the source's names. Nat/Add takes the three
--   adding calls as one by their request. Nat/Table writes the commands out once more, with no name
--   of the code; Nat/Adding and Nat/Commands hold what is run against it.
-- - Tenants: tenants.py, the registry of tenants. Audit: audit.py, the audit log with its ring buffer.
-- - Rules: main.py, the routes `add_rule`, `delete_rule`, `flush_rules` and `list_rules`
--   (Rules/Routes), over Tc, Tenants and Audit: the rules, the two idempotency indexes, the tenants,
--   the log and the world are one state. `add_for`, `delete_for` and `flush_for` are the parts of a
--   route after the tenant is known.
-- - Api: main.py, the NAT routes and `delete_tenant` (Api/Routes), over Rules and Nat: the whole state
--   of the daemon. An entry of `nat_entries_db` is the object that `nat_db` holds, so what is written
--   into one is written into both. The three adding routes are one by their request. Api/History has
--   the histories of all routes that change rules, entries or tenants, Api/Reports the other routes,
--   and Api/Quotas counts what each tenant has.
-- - Conntrack: conntrack.py, the reader of the connections that the command `conntrack` lists.
-- - Generator: traffic-gen/src/generator.py, the traffic generator. Its threads run in turns, each
--   up to the next point where another thread may step in; a history is a list of turns and calls in
--   any order, so a theorem on all histories is one on all interleavings. PortStats objects are
--   referred to by number, since a worker keeps the one that it began with.
-- - Receiver: receiver/src/listener.py, the traffic receiver: its listeners, which start and stop
--   together, and their counters. The sockets are a parameter: each call succeeds or raises OSError.
-- - Base: numbers, texts, dicts as association lists in insertion order, sets as lists without
--   duplicates, places of a list, the regular expressions that the program searches for
--   (Base/Patterns), and the monad `Action S A = S → Result A × S`, which keeps the state after a raise.
--
-- Integers of the source have no bounds. Those that are never negative are the native numbers, and
-- ℤ is for a timeout that is read, for a rate that is asked for and for the quotas of a tenant, which
-- the API takes as they come. Times are whole numbers of the clock's unit. The search of a free port is bounded by the pool size, as in the source; printing a
-- number has the number plus one as fuel, which is more than its digits. No other function has fuel.
--
-- Arguments of the model are what the daemon takes from outside: the clock, the letters of a new uuid,
-- the hash of a text (no property needs it to be free of collisions), the division behind a percentage,
-- what the disk does to a file, and the kernel. Locks are left out: every method of the port pools
-- holds its lock throughout, and the calls of the daemon run one after the other. A turn of the
-- generator is told whether its connection succeeds and whether its pause is over.
--
-- Not modelled: the text in the file of the generation, which holds a number here; logging; the validation by pydantic; the rates and ages that the generator and the
-- receiver report, which come from their clocks; the benchmark server, the terminal monitor, the
-- crates, the DOCA program and the web pages, which are other programs.
mod Base
pub mod Snat
pub mod Ha
pub mod Tc
pub mod Nat
pub mod Tenants
pub mod Audit
pub mod Rules
pub mod Api
pub mod Conntrack
pub mod Generator
pub mod Receiver
