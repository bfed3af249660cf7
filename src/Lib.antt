-- ===== src/Lib.antt =====
-- Verification of the Intelligent Multi-Camera Person Tracking and Video Search System.
--
-- The AI service turns detections into global persons, stores their embeddings in Qdrant and sends events by Kafka.
-- The analytics service consumes them, keeps the tables of persons and events, answers queries over them and
-- raises alerts, which the notification service hands to the gateway for its sockets. The search service finds
-- persons by their embeddings, and the camera service keeps the cameras and probes them. The gateway is the only
-- way in for clients: it limits rates, checks the tokens that the auth service issues and forwards requests to
-- the internal services, which read the user's identity from headers. The scheduler deletes what is past its
-- retention.
--
-- Prelude: names shared by all modules, Python dicts as association lists, integers, floats as a class of
--   operations with laws, and texts.
-- Shared.Security: packages/shared/security.py. Shared.Startup: `wait_for_db` of packages/shared/db_startup.py.
--   Shared.VectorStore: packages/shared/vector/qdrant.py over Shared.Qdrant, the server's client. Shared.VectorIds:
--   its ids against those of apps/ai-service/src/reid/gallery_manager.py. Shared.Http, Kafka and Secrets: what is
--   common to HTTP handlers, to Kafka consumers and to the checks of secrets.
-- AiService.Embedding, Nms, Boxes: apps/ai-service/src/utils and the crop of storage/crop_saver.py.
--   AiService.Streams: apps/ai-service/src/stream/rtsp_source.py and the scan of stream_manager.py.
--   AiService.Spatial: apps/ai-service/src/reid/spatial_constraints.py.
--   AiService.Gallery and Associator: apps/ai-service/src/reid/mtmc_association.py, with the threads that share an
--   associator as a step relation over its critical sections.
--   AiService.GalleryManager: apps/ai-service/src/reid/gallery_manager.py. AiService.Probe: the probe of
--   apps/ai-service/src/plugins/probe_callbacks.py, whose batch of frames becomes events.
-- Analytics.Consumer and Analytics.Tracking: apps/analytics-service/src, the Kafka consumer, the use case
--   `ProcessTrackingEventUseCase.execute` with its repositories, and the transaction around it.
--   Analytics.Queries: presentation/api/v1/tracking_routes.py with the queries of the tracking repository.
-- Auth: apps/auth-service/src/services and src/api/auth_routes.py.
-- Camera: apps/camera-service/src. Camera.Service is the cameras' table, Validation and Upload the checks of
--   requests, Routes the handlers, Router the routes with their roles, HealthChecker the probes and their cache.
-- Search.Routes: apps/search-service/src/api/search_routes.py and services/search_service.py.
-- Gateway.RateLimiter: apps/gateway/src/middleware/rate_limiter.py. Gateway.Lockout, Token, Proxy, Health and
--   Sockets: apps/gateway/src/main.py, whose handler `proxy_request` composes them, and src/websocket/manager.py.
-- Notification: `consume_alerts` of apps/notification-service/src/main.py.
-- Scheduler: apps/scheduler-service/src/jobs/cleanup_job.py.
-- Settings and Startup in Analytics, Auth, Camera, Gateway and Search: the checks of secrets that decide whether a
--   service starts.
--
-- Floats, numpy, argsort, argmax, uuid4, Redis, bcrypt, jwt, the HTTP client, the brokers, the Qdrant client, MinIO, the
-- metadata of DeepStream, sockets, `urlparse`, `PurePath`, the parsing of dates and UUIDs and the way that a service
-- reads a header are parameters, with what is assumed of them as named hypotheses. A table is the list of its rows.
-- Times are natural numbers, in microseconds in the gateway and in the analytics queries, and in seconds in the
-- auth service and in the health checker.
-- The loops of `nms` and `soft_nms` run on as much fuel as there are boxes, each round removing at least one. The
-- loop that reads an uploaded file runs on 252 reads, more than the greatest accepted file has chunks. Attempts are
-- counted down; numbers are printed with more fuel than they have digits.
-- A dead-letter producer takes a message in its queue or raises; what its topic holds is not modelled, since the
-- services ignore the answer of `flush`. A write to Qdrant that raises may have been applied or not.
-- Not modelled: logging, sleeps, metrics, the web frontend, database declarations and migrations, infrastructure,
-- the wiring of the applications, the interleavings of the watchdog's scan with other tasks, and the GStreamer pipeline.
pub mod Prelude
pub mod Shared
pub mod AiService
pub mod Analytics
pub mod Auth
pub mod Camera
pub mod Gateway
pub mod Notification
pub mod Scheduler
pub mod Search
