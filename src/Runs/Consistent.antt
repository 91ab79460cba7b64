-- ===== src/Runs/Consistent.antt =====
-- Whatever commands of src/spidercheck/core.py and src/spidercheck/views.py run, and wherever they
-- end, the database stays consistent.
