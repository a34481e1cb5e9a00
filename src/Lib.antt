-- ===== src/Lib.antt =====
-- rmf_traffic: a model of the traffic schedule's bookkeeping and of the blockade moderator, with
-- the theorems that make them correct.
--
-- The program. rmf_traffic lets robots of several fleets share a building. Participants of the
-- schedule (rmf_traffic/src/rmf_traffic/schedule) send numbered changes of their itineraries to a
-- database, over a medium that loses, repeats and reorders; an inconsistency tracker for each
-- participant keeps the versions that are missing and holds later changes back until they have come.
-- Participants of a blockade (rmf_traffic/src/rmf_traffic/blockade) reserve paths of checkpoints with
-- a moderator, which gives each a range of its path so that paths that conflict are not blocked.
--
-- The files.
-- - Base: numbers, tests, lists and maps that the others share. Base.Modular is the comparison
--   of counters of rmf_utils, a library that the repository does not contain: a record of the
--   comparisons with their documented behaviour near each other, with one that has it. Base.Int has
--   the signed numbers that times and durations are, without their bounds.
-- - Route: the times of the waypoints of a trajectory (Trajectory.cpp), and a route that is delayed.
-- - Schedule.Tracker: schedule/InconsistencyTracker.hpp and .cpp. Tracker.Check has check,
--   in the parts that the branches of the code make, and Ticket::set. Tracker.Gaps is the description
--   that the ranges are measured by: the versions between recorded changes.
-- - Schedule.Delivery: the head of Database::set, extend, delay and clear, the ticket's destructor
--   and _apply_changes. What a change does is an argument here, and Database.Calls is what it is filled
--   with. A callback of the code is the call with the same change, and is made on fuel: the results
--   have any fuel of at least 2, as a call that is made again is not held back. Delivery.Replay has the
--   history, the changes in the order of their versions; Delivery.Simulate compares two deliveries of
--   the same changes.
-- - Schedule.Progress: schedule/Progress.cpp.
-- - Schedule.Dependencies: schedule/DependencyTracker.cpp. A weak pointer to a subscription is a
--   number, and which of them are alive is an argument.
-- - Schedule.Entry: the entries of a route in the database, the newest of which holds the one that it
--   replaced, and the walks along them (RouteEntry, get_most_recent, get_last_known_ancestor).
-- - Schedule.Database: the routes that the database stores of a participant, with insert_items,
--   apply_delay, apply_description_update, clear and get_itinerary. Database.Calls is what set, extend,
--   delay, clear and reached do below their checks. Database.Plans has the abstract view, an itinerary
--   and a plan id.
-- - Schedule.Patch: Database::changes for all of space and time, with the inspectors of the timeline.
--   Patch.Log describes the entries of a route by the log of a participant's delays, and Patch.Upheld
--   has what the calls keep of them. The bucket of the timeline is an argument of changes, which
--   Mirror.RoundTrip describes by the entries that it holds.
-- - Schedule.Mirror: schedule/Mirror.cpp.
-- - Schedule.Participant: schedule/Participant.cpp, with the calls of the writer that a participant makes.
--   A walk past the end of the history, which the language leaves open, is none.
-- - Blockade.Range, Timeline: Status.hpp and the timeline of an alignment (conflicts.cpp).
-- - Blockade.Constraint: the subclasses of Constraint (Constraint.cpp and BehindConstraint of
--   conflicts.cpp) as the constructors of one type. An exception is none.
-- - Blockade.Gridlock: compute_gridlock_constraint (Constraint.cpp). The parents of a node are a
--   list; the fuel is the number of blockers times one more than the number of their dependencies.
-- - Blockade.Conflicts: compute_blockers and compute_alignments, and in Conflicts.Final
--   compute_final_ShouldGo_constraints (conflicts.cpp).
-- - Blockade.Moderator: the moderator's state, the check of an entry of the ready queue and the loop
--   over the queue, whose fuel is measured by how far the entries are from their goals
--   (Moderator.cpp). Moderator.Setting has set, and Moderator.Calls ready, release, reached and
--   cancel, and all calls together. A call gives the
--   moderator that it leaves and whether it throws.
-- - Blockade.Participant: Participant.cpp, with the calls of the writer that a participant makes.
-- - Schedule.Tests, Schedule.StoreTests, Schedule.ParticipantTests and Blockade.Tests: runs on small
--   inputs.
--
-- The conventions. Unsigned numbers of 64 bits are natural numbers, with % 2 ^ 64 where the code
-- adds or subtracts and the result may leave the range in the states considered. An unordered map is
-- an association list; the order of its entries stands for the order of iteration. The changes
-- that a tracker records are in the order of the numbers, as std::map has them, and what is shown of
-- the tracker is shown for versions in the lower half of the counter, where that is their order.
--
-- Not modelled: what floating point decides, which are the conflict brackets of two paths
-- (compute_brackets of conflicts.cpp and geometry.cpp, a parameter of the moderator), the motion along a
-- trajectory, the detection of conflicts and the planner; the registration of participants, the cull and
-- the forks of the database and its queries; the rectifiers; the timeline as an index by map and time;
-- the negotiation; logging, threads and the text of messages.
pub mod Base
pub mod Schedule
pub mod Blockade
pub mod Route
