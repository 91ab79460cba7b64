-- ===== src/Lib.antt =====
-- Spidercheck: a Django application that crawls the pages of web sites, checks them, and keeps their
-- links and the values that plugins find in them.
--
-- The parts of the program and the files that model them, with paths from the root of the repository:
-- - Models, Tables: the tables of src/spidercheck/models.py as lists of rows in a record `Db`, and what
--   Django does for `save`, `get_or_create` and `delete`: unique constraints raise, deletes cascade.
--   Tables/Consistent states the invariant of the database; Tables/Inserts, Seeds, Saves, Deletes, Values
--   and Rewrites show which statements keep it.
-- - Action, Results: code that reads and writes the database and may raise; `Success` and `Failure`
--   of src/spidercheck/results.py.
-- - Sites, Pages, Values: the methods of `Site`, `Page` and `Value` in src/spidercheck/models.py.
-- - Parser (parser.py), WebParser (src/spidercheck/webparser.py): which links a page holds, and
--   whether a text is HTML.
-- - Core: headers and `_update_links` of src/spidercheck/core.py; Plugins: `_run_plugins`, the
--   registry of src/spidercheck/plugins/__init__.py and the plugin get_version.py, with the plugins
--   get_title.py and index_site.py in Plugins/Documents; Search: src/spidercheck/search.py; Crawl:
--   `check_page`, `check_site`, `init_site` and `reset_site` of src/spidercheck/core.py.
-- - Console, Command: the management command, src/spidercheck/management/commands/spidercheck.py. Console is
--   what a command prints, as lines, messages and tables of pieces of text; Command/Arguments is the
--   reading of the command line, Command/Lists the orders that print, Command/Checks those that check
--   pages, Command/Main the choice of the order.
-- - Runs: the database as it goes from one request or command to the next, from any database.
-- - Seq: src/spidercheck/seqtools.py.
-- - Converters: src/spidercheck/converters.py; Converters/Digits reads a printed number back.
-- - Views: the views of src/spidercheck/views.py, those that render as the context of their template;
--   Routes: src/spidercheck/urls.py and links.py.
-- - Fechas: src/spidercheck/fechas.py, the steps of the calendar, over the date arithmetic of the
--   standard library, and the readers `dmy` and `ymd`; Fechas/Regex is a matcher that tries
--   alternatives in order, Fechas/Patterns the patterns written for it, Fechas/Parsers the date
--   parsers, Fechas/Hours `last_hours`, Fechas/Spans the spans of time.
-- - Urls: the interface of `urllib.parse`; Urls/Plain is an instance to run examples with.
-- - Prelude, Rows: numbers, texts, lists, and queries over rows. Examples: a small site.
--
-- `check_site` asks `next_page_to_check` for a page and gives it to `check_page`, which stores the
-- answer of the server in the row, and for HTML of the site passes the text to `_update_links` and
-- `_run_plugins`; these write links, new pages and values.
--
-- How the model stands to the code: times are microseconds since the EPOCH; texts are code points, and
-- the methods of `str` and the regular expressions are those of ASCII. Every statement commits by
-- itself, as under autocommit. Rows that an order does not tell apart keep the order of the table;
-- a set is iterated in the order in which its items came in. A random number is the 53 bits that the
-- generator draws. The clock is read once for each visit of a page. `check_page` is `check_result`
-- after `is_valid`. A `Success` may hold any value; `is_valid` gives one that holds `True`, which has
-- none of the attributes that `check_page` reads next. The branches behind that reading are modelled for
-- any object that has them, as the code is written. The tags that HTMLParser finds, robots.txt and its
-- answers, which may be exceptions, the answers of the server and whatever `urlopen` raises, what the
-- imports of the registry give or raise, the plugins, BeautifulSoup, Paginator, `re.compile` of a pattern
-- that the user gives, the query of `dbraw` and the URL library are arguments. Names are ordered by
-- their code points.
--
-- Fuel: `batch` and `text_as_fragments` loop on a condition and recur on fuel; fuel above the length
-- of the input is enough, as shown for a positive size. Numbers are printed with one round for each
-- unit, which is more than one for each digit. All other loops are structural.
--
-- Not modelled: length limits of columns and NULL, the rounding of `progress`, help texts and styles of
-- columns, the pause between two checks and the heartbeat, charts and messages of the views, `get_zone_info`
-- and `from_timestamp`, the templates and the packaging.
pub mod Prelude
pub mod Results
pub mod Runs
pub mod Routes
pub mod Console
pub mod Command
pub mod Search
pub mod Seq
pub mod Rows
pub mod Models
pub mod Action
pub mod Tables
pub mod Urls
pub mod Sites
pub mod Values
pub mod Parser
pub mod WebParser
pub mod Pages
pub mod Core
pub mod Crawl
pub mod Plugins
pub mod Fechas
pub mod Converters
pub mod Views
pub mod Examples
