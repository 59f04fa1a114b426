-- ===== src/Lib.antt =====
-- The verification library of the integrated control and monitoring platform: the decisions that it
-- takes on the readings of gas and power sensors, from a reading to an alarm event.
--
-- The parts of the program and how they interact. A reading of gases or of a power channel comes to
-- monitoring/services.py, which grades it (calc_danger_level, check_threshold_exceeded,
-- calc_power_channel_level) and hands it to the handlers of alerts/services.py; these open, refresh
-- and close rows of the table of alarm events. The detectors of monitoring/anomaly keep the last values
-- and the state of each gas of each device. facilities/services keeps a geofence around a sensor
-- whose readings are high, judges the position of each worker against the geofences of the floor,
-- and lays the grid of a floor. The engine, fastapi_app/ai_engine/, keeps windows of
-- points, judges single values against a table of limits, and grades forecasts; its results reach
-- alerts/services.py as the results of STEP D to STEP G. A user moves an event to another status by
-- hand through alerts/views.py. Apart from the readings, safety/views.py keeps the daily checklist of
-- each worker.
--
-- Which file models which part:
--   Base       shared: Boolean tests, lists over the native numbers, keys, dicts, bounded deques, texts
--   Float      the interface of `float`, the order laws of IEEE 754, and the thousandths that the
--              examples run on
--   Engine     fastapi_app/ai_engine/common
--     Types      enums/risk_level.py and data_types/data_point.py
--     Threshold  modules/threshold.py: ThresholdClassifier, whose state is its table
--     Window     modules/sliding_window.py: SlidingWindow, whose state is a dict of bounded deques
--     Forecast   integration/forecast_policy.py: ForecastPolicy, whose state is the two dicts of streaks
--     Detect     modules/z_score.py and modules/change_point.py: ZScoreDetector and
--                ChangePointDetector, over a window that belongs to the caller
--     Subsystem  integration/prediction_subsystem.py: PredictionSubsystem, which composes the window,
--                the change points, the classifier and the policy
--     Arima      gas/modules/arima.py: GasARIMAPredictor, the predictor that is injected there
--     Bundle     data_types/sensor_bundle.py: SensorBundle
--   Monitoring monitoring/services.py, over the columns of monitoring/models.py that it reads
--     Gas        get_thresholds, calc_danger_level, check_threshold_exceeded
--     Power      is_stale, is_channel_on, check_channel_status, calc_power_channel_level
--     Anomaly    monitoring/anomaly: Buffers (window.py), Zscore (zscore.py), Changepoint
--                (changepoint.py), over a mean and a deviation that are parameters
--   Alerts     alerts/services.py, over the columns of alerts/models.py that it reads or writes
--     Tables     the tables as one state, the shared queries, create_alarm_event, the automatic close
--     Gas        check_gas_thresholds, trigger_anomaly_alarms, trigger_changepoint_alarms
--     Isolation  trigger_if_anomaly_alarms, trigger_if_anomaly_alarms_power
--     Prediction trigger_forecast_alarms
--     Power      check_power_thresholds
--     Missing    check_missing_devices of alerts/tasks.py
--     Notices    send_all_notifications of alerts/tasks.py
--     Status     change_event_status, get_status_counts
--     Steps      the ways in which the tables change, as a step relation, and what the steps keep
--     Commands   the handlers, check_missing_devices and change_event_status_view as calls in
--                any order
--   Facilities facilities/services and facilities/signals.py, over the columns of
--              facilities/models.py that they read or write
--     Fences     geofence_checker.py: whether a point is in a geofence, and the verdict on a worker
--     Workers    geofence_checker.py: sync_worker_status, deactivate_stale_workers
--     Autofences geofence_service.py: the geofence that the readings of a sensor keep, and its sweep
--     Grid       floor_grid_maker.py and grid_*.py, with the table, the reader and the writer of
--                facilities/repositories and the cache that facilities/tasks.py invalidates
--     Nodes      facilities/signals.py: the copies between a location node and its device
--   Ingest     monitoring/services.py: process_gas_ingest and process_power_ingest, which compose the
--              handlers, the detectors and the geofence over one state
--   Safety     safety/views.py, over the columns of safety/models.py that it reads or writes
--     Checklist  the POST requests of mysafety_detail and mysafety_vr
--     Calendar   _build_calendar, and the loop build_months of the printed history
--     Download   the rows of mysafety_history_download
--   Examples   concrete runs
--
-- How state and operations correspond. An object's attributes are a record, and a method is a function
-- of it that returns the new record; a raised ValueError is a constructor of the result. A database
-- table is a list in the order of its ids, `save` replaces the row of its id, and a query's `.first()`
-- is the first row that passes; where an order_by or the Meta.ordering of the table names a time, as
-- for AlarmEvent and AlarmPolicy, it is the newest one, the earlier row on a tie. An instant is a number of microseconds, and a handler reads the clock once. The names of
-- functions and fields are those of the source; the status `open` is called `opened`.
--
-- Bounds and fuel. Each loop of the source runs over a list, and is structural recursion, but for the
-- two loops of safety/views.py over months and days, which have as fuel the number of the last month
-- or day, and the signals inside a signal of facilities/signals.py, which two units of
-- fuel end. A date is at most 9999-12-31, and the step past it raises. Python's integers have no bound, and are natural numbers here: a negative size or count,
-- which the code refuses as it refuses zero, is outside the model. A float is an abstract type with
-- the operations that the code uses; a theorem that needs an order takes its laws as a parameter.
--
-- What is not modelled. Django, Celery, numpy, ruptures, scikit-learn and statsmodels, which are not in the
-- repository, and code that only renders, serialises, configures or forwards. A notification task is
-- the id that is put in `queued`. The Prometheus counter and the text of numbers (`show` and `fixed`
-- of the float interface) are left abstract. Concurrent transactions are not modelled: the calls
-- happen one after the other. The channel layer that sends a geofence to the pages is the list of the
-- payloads. The conversions of Python between floats and integers are a parameter of the grid. The
-- broadcast of a sensor to the pages and the texts that alerts/tasks.py sends are left out.

pub mod Base
pub mod Float
pub mod Engine
pub mod Monitoring
pub mod Alerts
pub mod Facilities
pub mod Ingest
pub mod Safety
pub mod Examples
