-- ===== src/Lib.antt =====
-- video-flow: a manager hands out video inspection jobs to workers and collects their reports.
--
-- The manager (workflow-manager/src/workflow_manager):
--   Manager/Models       core/models.py: Job, JobStatus, JobCreate, JobUpdate
--   Manager/World        what it shares with the outside: the job table (core/database.py) and the task
--                        platform; sessions and requests end as an environment `Env` says
--   Manager/Exec         methods that change the world and may raise; Exec/Rules: triples for them
--   Manager/Repository   core/repositories.py: create, get_by_id, list_jobs, update, update_status,
--                        count_pending, get_one_pending_for_update, delete
--   Manager/Service      core/services.py, method by method
--   Manager/ExternalApi  client/external_api.py: get_task, update_task_status, create_report
--   Manager/Servicer     grpc/servicer.py: GetJob is `get_job_rpc`, CreateReport is `create_report_rpc`,
--                        Heartbeat is `heartbeat`; each stretch between two `try` blocks that return is
--                        a function of its own (`after_fetch`, `after_submit`)
--   Manager/Requests     api/handlers/job_handler.py, and the requests one after another: `serve`
--   Manager/Samples      an environment, inputs and tests
-- A text is its list of code points, a date a number of ticks, an id a natural number. The database is
-- the rows of `engine_jobs` and the next key. A session commits, or fails with nothing written, or fails
-- behind its commit. ORDER BY and the order of texts are parameters of `Env`; `IsDatabase` states what
-- SQL documents of them, which leaves the order of ties to each query. A job has its status as a member of
-- JobStatus; that the column holds its integer shows where the code asks for its name
-- (transition_job_status). HTTP is a parameter too: the n-th request raises or yields the field "Result".
-- Requests are served one after another; how the sessions of two requests interleave is not modelled,
-- nor are logging, the text of error details, singletons, and the migration of tables.
-- A page number is at least 1, as the API demands, so its offset is a natural number.
--
-- The worker (workflow-worker/src/workflow_worker):
--   Worker/Boxes                shared/utils/image_calculator.py: boxes and their overlap; Boxes/Overlap
--                               and Boxes/Ratios: its theorems
--   Worker/TimePatch            domain/entities/common/time_patch.py; TimePatch/Overlap: its theorems
--   Worker/Tracking             the class TrackingSequence of services/ai/track/manager.py, and
--                               domain/entities/human.py; Tracking/Patches: merged patches;
--                               Tracking/Gaps: reverse
--   Worker/Tracking/Sequences   the class SequenceManager of the same file; Sequences/Rerank,
--                               Sequences/Push and Sequences/Merge: its theorems
--   Worker/CircularQueue        infrastructure/circular_queue.py; CircularQueue/Fifo and
--                               CircularQueue/Runs: its theorems
--   Worker/FrameChannel         infrastructure/media_stream/frame_channel.py; FrameChannel/Delivery: what
--                               it delivers over any interleaving of its two ends
--   Worker/MediaStream          infrastructure/media_stream/stream.py: the rates and the sampling;
--                               MediaStream/Sampling: its theorem
--   Worker/Persons              applications/modules/person_tracking/processor.py, the report on who is seen:
--                               Persons/Intervals: its time patches; Intervals/Many, Intervals/Twice,
--                               Intervals/Merged and Intervals/Counted: theorems, with Intervals/Points and
--                               Intervals/Sweep under the first;
--                               Persons/Identity: who is who; Identity/Assigned: its theorem, with
--                               Identity/Sequences, Identity/Matched, Identity/Related and Identity/Keyed
--                               under it; Persons/Report: the report (and time_transport of
--                               shared/utils/common.py, whose theorem is in Report/Clock);
--                               Persons/Checks: the checks; Persons/Process: run and _process; Process/Flagged, Process/Total and Process/Ratio: theorems
--   Worker/Ocr                  domain/entities/service/ocr.py; Ocr/Ids: the ids of
--                               applications/modules/common/ocr/ocr_id_generator.py, with Ids/Printed under
--                               its theorem Ids/Numbered; Ocr/Manager, Ocr/Recognition and Ocr/Results: the
--                               managers of ocr_info_manager.py there, their state and detection, their
--                               recognition, and their results; under Ocr/Results, Detected and Aligned: what
--                               detection and recognition keep; Spans: a simple machine; Runs and Frames: a
--                               manager follows it; Started: new managers
--   Worker/Samples              inputs and tests; Samples/Streams: those of the queue, the channels and
--                               the media stream;
--                               Samples/Persons: those of the report; Samples/Texts: those of Worker/Ocr
-- Times are whole milliseconds and scores are natural numbers, where the worker has floats; a ratio
-- of areas is its two numbers. Rates of frames are counted per thousand seconds and cut as `int`
-- does. The float score of `is_match` and the face comparison of FeatService are the parameter
-- `Recogniser`, taken to return. A method that raises leaves the object as the code leaves it. The
-- outer loop of `merge` has the length of the queue as fuel: each round drops one sequence from what
-- is left. In the report a similarity is counted in millionths and a ratio is its two numbers;
-- images, FeatService, the store of pictures and pydantic's validation of the result are the
-- parameters `Faces` and `Outside`, and all of them may raise; `none` stands for an exception. In Worker/Ocr coordinates are counted
-- in thousandths of a pixel and areas in halves of a millionth, similarities and confidences in
-- millionths, frames per second and frames left in thousandths; the distances of two texts are the
-- parameter `Distances`, and whether pydantic takes a box as a list of integers is the parameter
-- `Validator`. The modules of the worker that match scripts and subtitles, those that run the OCR
-- managers over a video, the job runner and the loops of its media streams are not modelled. The
-- queue of the package janus is the parameter `Janus` with the order it documents.
--
-- Prelude has the shared tests, lists, integers, texts, dictionaries, decimal numbers, steps that may
-- raise, and sorting.
mod Prelude
pub mod Manager
pub mod Worker
