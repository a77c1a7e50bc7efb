-- ===== src/Lib.antt =====
-- BuildStream: the scheduler that runs the jobs of elements, the pipeline that selects and orders
-- elements, the elements themselves, and the options, nodes and variables of a project.
--
-- The program. A command selects elements and their order (src/buildstream/_pipeline.py), puts them
-- into the first of a chain of queues (src/buildstream/_scheduler/queues), and runs the scheduler
-- (src/buildstream/_scheduler/scheduler.py). The scheduler pulls elements from queue to queue, asks
-- the queues for jobs that the resources allow (src/buildstream/_scheduler/resources.py), and starts
-- them (src/buildstream/_scheduler/jobs). A job ends in a call back to its queue, which gives the
-- resources back, and to the scheduler, which then schedules anew. src/buildstream/_state.py keeps
-- the counters of what was done. The project that the elements come from has options
-- (src/buildstream/_options), which are set before anything is selected. What an element is
-- configured with is composed from nodes (src/buildstream/node.pyx) and has its variables expanded
-- (src/buildstream/_variables.pyx). The queues ask an element (src/buildstream/element.py) whether it
-- can be built and tell it what was done; it tells its reverse dependencies when it is ready.
--
-- The files.
--   Common: lists, Boolean tests, association lists, and `Outcome`, the result of code that may
--     raise. A failed `assert` and an exception are the raised `Error`.
--   State: `TaskGroup` and the tasks of `State`.
--   Scheduler/Resources: `Resources`, with `reserve` and `release`; Accounting is about their books.
--   Scheduler/Queues: the class `Queue`. A heap of `heapq` is the list in the order in which its
--     entries are popped. What `done` does is an `Activity`: callbacks of elements may make elements
--     enter the queue whose `done` runs. A callback into another queue is an event of the loop. Fairness is about the order of jobs, Completion about `_job_done`, Usable
--     about what the queue needs of a subclass.
--   Scheduler/Classes: the seven subclasses, as records of what they override; Behaviour.
--   Scheduler/Jobs: the class `Job`: `start`, `terminate`, what its thread does, and how the return
--     code becomes a status; Retrying.
--   Scheduler/Loop: the class `Scheduler` as a state and a step for each event that the event loop
--     may handle: a scheduling that is due, a thread that begins, the end of a job's child, a
--     callback of a pending element, and what the user asks for when a job fails: `retry_job` of
--     src/buildstream/_stream.py, `stop`, `terminate`. Once the loop has stopped it handles
--     nothing more. ActiveJobs, ActiveTasks, Rounds, Invariant, Running, Completing, Entering,
--     Safety, Stopping and AfterStop are about it.
--   Pipeline/Planner: `_Planner`; Depths and Order.
--   Pipeline/Dependencies: `dependencies`, with `Element._dependencies` of
--     src/buildstream/element.py, as the list of what the generators yield; PostOrder, Walk, Order
--     and Reach.
--   Pipeline/Selection: `get_selection`, `except_elements`, `assert_consistent` and
--     `assert_sources_cached`; Intersecting, Traversing, Excepting and Asserting.
--   Options: Texts and Nodes are what the options read; Arch is `Platform.canonicalize_arch` of
--     src/buildstream/_platform/platform.py; Kinds has the classes of options, Pool the class
--     `OptionPool`; Validity and Configured are their theorems, Tables has those of dictionaries.
--   Overlaps: the classes of src/buildstream/_overlapcollector.py, to which the staging of an element
--     reports its files; Sessions.
--   Elements: the state of the elements of src/buildstream/element.py that the queues change: cache
--     keys, what is cached, the counters of dependencies that are not, readiness and the callbacks
--     that wait for it. Assembly has `_set_required`, `_assemble_done`, `_load_artifact_done` and
--     `__update_cache_keys`. Counting, Readiness, Notifying and Updating with Marking, and below
--     Assembly Scheduling, Closing, Requiring, Completing, Running, Specification and Keys are about
--     them. Running has the sequences of what happens to elements: a request, a loading with what is
--     done after it, an assembly that is done. Elements/Loading is `_load_artifact`, with what
--     src/buildstream/_artifact.py answers as an interface; Choosing.
--   Loader: the check of circular dependencies of src/buildstream/_loader/loader.py; Circles is what
--     it finds, Ending that it ends.
--   Nodes: the composition of nodes of src/buildstream/node.pyx; Layering and Composing.
--   Variables: the expansion of variables of src/buildstream/_variables.pyx; Meaning is the expansion
--     without a cache, Caching and Expanding compare the two, Resolving has the iterative resolution
--     and the methods of `Variables`, Reading is about them.
--   Workspaces: the table of workspaces of src/buildstream/_workspaces.py and what its file holds;
--     Files.
--   Tests: the definitions and the theorems at concrete inputs.
--
-- What the model takes from outside. An element is its unique id, a number. What a queue asks of
-- elements, workspaces and messages is the record `Host`; what a subclass overrides is the record
-- `QueueClass`; both are parameters, and so is the state of the world that they change. The
-- dependencies of elements are functions to lists of ids. The names of the host and the files of the
-- element path are the record `HostFacts`. A text is the list of its code points; lower case and
-- white space are those of ASCII. A staged file is a number, with `os.path.join` as a function of
-- such numbers. The dependencies between elements, the hash of a cache key and what casd says of an
-- artifact are parameters; a callback of an element is recorded where the source calls it. A value
-- expression is already split into literals and names.
--
-- Fuel. The scheduling loop runs its body again while a queue has something to dequeue; one round
-- leaves nothing, so that two are given, and no run is out of fuel. The recursion of the planner and
-- of the dependencies takes fuel above the rank of the roots, where a rank falls along the
-- dependencies of an acyclic graph. The loop of `except_elements` takes as much as there are targets
-- and dependencies. The notification of reverse dependencies takes more than the number of elements.
-- The check of circular dependencies takes more than a step for every element and every dependency.
-- The recursive expansion of variables counts the levels that the source permits; its iterative
-- resolution takes fuel for its steps. A run that is out of fuel raises `diverged`.
--
-- What is left out. Of the scheduler: suspending and resuming, signals, the watch on casd, times and
-- the ticker. Of jobs: messages and log files. Of the state: the callbacks of the user interface.
-- Of the options: conditionals in YAML nodes, which jinja2 evaluates. An option that raises while it
-- is assigned ends the loading, so that its value from then on is not kept. Of
-- an element: loading it from YAML, staging and the sandbox. Of nodes: the getters and where a node
-- comes from. Of variables: parsing, and the walk over nodes. Of the loader: files, links and
-- junctions. Of workspaces: creating and deleting them, and
-- the cache of workspace projects. Of the rest of BuildStream: the caches, sandboxes, plugins, the
-- storage and the command line.
pub mod Common
pub mod State
pub mod Scheduler
pub mod Pipeline
pub mod Options
pub mod Overlaps
pub mod Elements
pub mod Nodes
pub mod Variables
pub mod Loader
pub mod Workspaces
mod Tests
